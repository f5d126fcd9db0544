-- ===== src/Queue/Exploring.antt =====
-- The ε-random branch of `pop` of the queue of src/blockchecks/engine/adaptive_queue.py.
use mathlib.Core.Path.{subst}
use blockcheck_s.Prelude.{
  ℕ, ◌+◌, ◌≤◌, ◌<◌, Bool, true, false, String, Option, none, some, List, [], ◌∷◌, ◌++◌, string_eq,
  pair_eq, ◌==◌, eqb, if◌then◌else◌, ==_iff, ==_refl, ◌≡◌, refl, sym, ap, arith, Bool-cases, inl,
  inr, if_split,
}
use blockcheck_s.Prelude.Lists.{All}
use blockcheck_s.Prelude.Dict.{lookup, has_key, contains}
use blockcheck_s.Job.{AdaptiveJob, key}
use blockcheck_s.Queue.{Random, Key, AdaptiveJobQueue, drop_pending}
use blockcheck_s.Queue.Invariant.{
  IsValid, lookup-drop_pending, finished-drop_pending, drop_pending-IsValid,
}
use blockcheck_s.Queue.Pop.{reservoir, epsilon_pick_key, pop_random}
use blockcheck_s.Queue.Promise.{IsPopped}

-- `randint(1, 1)` is 1.
abbrev pub IsFair : Random → Type 0
IsFair r = (s : r.State) → (r.one_in 1 s).0 ≡ true

-- A key of the dict whose domain may be chosen. The domain of a filed job is part of its key.
abbrev pub IsChoice : List String → List (Key × AdaptiveJob) → Key → Type 0
IsChoice exclude m k = (has_key k m ≡ true) × (contains exclude k.1 ≡ false)

abbrev pub AllExcluded : List String → List (Key × AdaptiveJob) → Type 0
AllExcluded exclude m = All (λ p. contains exclude p.0.1 ≡ true) m

-- What the loop has chosen after `count` jobs.
abbrev pub IsPick : (Key → Type 0) → Option Key → ℕ → Type 0
IsPick P none n = n ≡ 0
IsPick P (some k) n = (0 < n) × P k

module _ (r : Random) (fair : IsFair r) (exclude : List String) (P : Key → Type 0) where
  -- The first job counted is chosen, for `randint(1, 1)` is 1; a later one may take its place.
  choose-IsPick :
      (k : Key) (chosen : Option Key) (count : ℕ) (s : r.State)
      → P k
      → IsPick P chosen count
      → IsPick P (if (r.one_in (count + 1) s).0 then some k else chosen) (count + 1)
  choose-IsPick k chosen count s pk p =
      if_split {A = Option Key} (λ c. IsPick P c (count + 1)) (r.one_in (count + 1) s).0 (some k)
        chosen (λ hit. (omega arith, pk)) (miss chosen p)
    where
      miss :
          (c : Option Key)
          → IsPick P c count
          → (r.one_in (count + 1) s).0 ≡ false
          → IsPick P c (count + 1)
      miss none z e = absurd (cc (fair s, subst (λ n. (r.one_in (n + 1) s).0 ≡ false) z e))
      miss (some c) z e = (omega (arith, z.0), z.1)

  abbrev IsSeen : List (Key × AdaptiveJob) → ℕ → Option Key × ℕ × r.State → Type 0
  IsSeen m count x = IsPick P x.0 x.1 × (x.1 ≡ 0 → AllExcluded exclude m) × (count ≤ x.1)

  -- The loop chooses a job as soon as it counts one, and counts none only if all are excluded.
  pub reservoir-IsPick :
      (m : List (Key × AdaptiveJob)) (chosen : Option Key) (count : ℕ) (s : r.State)
      → All (λ x. key x.1 ≡ x.0) m
      → ((k : Key) → IsChoice exclude m k → P k)
      → IsPick P chosen count
      → IsSeen m count (reservoir r exclude m chosen count s)
  unfolding reservoir lookup
  reservoir-IsPick [] chosen count s f h p = (p, (λ z. tt), omega arith)
  reservoir-IsPick ((k, job) ∷ m) chosen count s f h p =
      step (λ c n t. reservoir-IsPick m c n t f.1 (λ j c. h j (ground (arith, c), c.1)))
        (contains exclude job.domain) refl
    where
      step :
          ((c : Option Key) (n : ℕ) (t : r.State)
            → IsPick P c n
            → IsSeen m n (reservoir r exclude m c n t))
          → (b : Bool) → contains exclude job.domain ≡ b
          → IsSeen ((k, job) ∷ m) count (
              reservoir r exclude m
                (if b then chosen else if (r.one_in (count + 1) s).0 then some k else chosen)
                (if b then count else count + 1)
                (if b then s else (r.one_in (count + 1) s).1))
      step rec true e =
          let ih = rec chosen count s p in
          (
            ih.0,
            (λ z. (subst (λ d. contains exclude d ≡ true) (ap (λ x. x.1) f.0) e, ih.1 z)),
            ih.2,
          )
      step rec false e =
          let pk = h k (
            ground (arith, ==_refl k),
            subst (λ d. contains exclude d ≡ false) (ap (λ x. x.1) f.0) e,
          ) in
          let ih =
            rec _ (count + 1) (r.one_in (count + 1) s).1 (choose-IsPick k chosen count s pk p) in
          (ih.0, (λ z. absurd (omega (arith, z, ih.2))), omega (arith, ih.2))

module _ (exclude : List String) where
  AllExcluded-lookup :
      (m : List (Key × AdaptiveJob)) (k : Key) (job : AdaptiveJob)
      → All (λ x. key x.1 ≡ x.0) m
      → AllExcluded exclude m
      → lookup k m ≡ some job
      → contains exclude job.domain ≡ true
  unfolding lookup
  AllExcluded-lookup [] k job f a e = absurd (cc e)
  AllExcluded-lookup ((j, v) ∷ m) k job f a e = elim (Bool-cases (j == k)) [
    | inl same ↦
        let p : v ≡ job = ground (arith, same, e) in
        cc (a.0, ap (λ x. contains exclude x.1) f.0, ap (λ x. contains exclude x.domain) p)
    | inr other ↦ AllExcluded-lookup m k job f.1 a.1 (ground (arith, e, other))
  ]

  contains-prefix :
      (soft : List String) (d : String)
      → contains (soft ++ exclude) d ≡ false
      → contains exclude d ≡ false
  unfolding contains
  contains-prefix [] d h = h
  contains-prefix (x ∷ xs) d h = contains-prefix xs d (ground (arith, h))

  abbrev IsChosen : List (Key × AdaptiveJob) → Option Key → Type 0
  IsChosen m none = AllExcluded exclude m
  IsChosen m (some k) = IsChoice exclude m k

  IsChosen-IsPick :
      (m : List (Key × AdaptiveJob)) (c : Option Key) (n : ℕ)
      → IsPick (IsChoice exclude m) c n
      → (n ≡ 0 → AllExcluded exclude m)
      → IsChosen m c
  IsChosen-IsPick m none n p z = z p
  IsChosen-IsPick m (some k) n p z = p.1

module _ (r : Random) (fair : IsFair r) (q : AdaptiveJobQueue r.State) (h : IsValid q []) where
  taken :
      (s : r.State) (k : Key)
      → IsChoice q.excluded_domains q.pending k
      → IsPopped q (drop_pending (record q { rng = s }) k) (lookup k q.pending)
  taken s k c = found_at (lookup k q.pending) refl
    where
      found_at :
          (o : Option AdaptiveJob)
          → lookup k q.pending ≡ o
          → IsPopped q (drop_pending (record q { rng = s }) k) o
      found_at none gone = absurd (ground (arith, c.0, gone))
      found_at (some job) found =
          let look = lookup-drop_pending (record q { rng = s }) k in
          let fk = h.filed k job found in
          record {
            valid =
                drop_pending-IsValid (record q { rng = s }) k []
                  (record {
                    filed = h.filed;
                    all_filed = h.all_filed;
                    not_finished = h.not_finished;
                    covered = h.covered;
                    ordered = h.ordered;
                  });
            remembers = λ j e. ground (arith, finished-drop_pending (record q { rng = s }) k);
            opened = (
              subst (λ j. lookup j q.pending ≡ some job) (sym fk) found,
              subst (λ j. contains q.excluded_domains j.1 ≡ false) (sym fk) c.1,
            );
            gone = ground (arith, look (key job), ==_iff k (key job), fk);
            old = λ j x e. ground (arith, look j, e);
            kept = λ j x o n. ground (arith, look j, o.0, n, ==_iff k j, ==_iff (key job) j, fk);
          }

  abbrev IsGoodPick : AdaptiveJobQueue r.State × Option Key → Type 0
  IsGoodPick x =
      (s : r.State) × (x.0 ≡ record q { rng = s }) × IsChosen q.excluded_domains q.pending x.1

  epsilon_pick_key-IsGoodPick :
      (soft : List String) → IsGoodPick (epsilon_pick_key r q (soft ++ q.excluded_domains))
  unfolding epsilon_pick_key
  epsilon_pick_key-IsGoodPick soft =
      let exclude = soft ++ q.excluded_domains in
      let P = IsChoice q.excluded_domains q.pending in
      let first =
        reservoir-IsPick r fair exclude P q.pending none 0 q.rng h.all_filed
          (λ k c. (c.0, contains-prefix q.excluded_domains soft k.1 c.1)) refl in
      pick (reservoir r exclude q.pending none 0 q.rng).0
        (reservoir r exclude q.pending none 0 q.rng).1
        (reservoir r exclude q.pending none 0 q.rng).2 first.0
    where
      pick :
          (chosen : Option Key) (count : ℕ) (s : r.State)
          → IsPick (IsChoice q.excluded_domains q.pending) chosen count
          → IsGoodPick (
              if eqb count 0
              then (
                record q { rng = (reservoir r q.excluded_domains q.pending chosen 0 s).2 },
                (reservoir r q.excluded_domains q.pending chosen 0 s).0,
              )
              else (record q { rng = s }, chosen))
      pick none count s p =
          let x = reservoir r q.excluded_domains q.pending none 0 s in
          let again =
            reservoir-IsPick r fair q.excluded_domains (IsChoice q.excluded_domains q.pending)
              q.pending none 0 s h.all_filed (λ k c. c) refl in
          if_split {A = AdaptiveJobQueue r.State × Option Key} IsGoodPick (eqb count 0) _ _
            (λ z. (x.2, refl, IsChosen-IsPick q.excluded_domains q.pending x.0 x.1 again.0 again.1))
            (λ nz. absurd (ground (arith, nz, p)))
      pick (some k) count s p =
          if_split {A = AdaptiveJobQueue r.State × Option Key} IsGoodPick (eqb count 0) _ _
            (λ z. absurd (ground (arith, z, p.0))) (λ nz. (s, refl, p.1))

  -- A random pop keeps the same promise as a greedy one.
  pub pop_random-IsPopped :
      (soft : List String)
      → IsPopped q
          (pop_random r q (soft ++ q.excluded_domains)).0
          (pop_random r q (soft ++ q.excluded_domains)).1
  unfolding pop_random
  pop_random-IsPopped soft =
      let x = epsilon_pick_key r q (soft ++ q.excluded_domains) in
      end x.0 x.1 (epsilon_pick_key-IsGoodPick soft)
    where
      end :
          (q' : AdaptiveJobQueue r.State) (chosen : Option Key)
          → IsGoodPick (q', chosen)
          → let o : AdaptiveJobQueue r.State × Option AdaptiveJob = elim chosen [
            | none ↦ (q', none)
            | some k ↦ (drop_pending q' k, lookup k q'.pending)
          ] in
            IsPopped q o.0 o.1
      end q' none (s, e, c) =
          subst (λ x. IsPopped q x none) (sym e)
            (record {
              valid = record {
                filed = h.filed;
                all_filed = h.all_filed;
                not_finished = h.not_finished;
                covered = h.covered;
                ordered = h.ordered;
              };
              remembers = λ k e. e;
              none_open =
                  λ k job. AllExcluded-lookup q.excluded_domains q.pending k job h.all_filed c;
            })
      end q' (some k) (s, e, c) =
          subst (λ x. IsPopped q (drop_pending x k) (lookup k x.pending)) (sym e) (taken s k c)

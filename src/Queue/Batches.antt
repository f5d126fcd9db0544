-- ===== src/Queue/Batches.antt =====
-- `pop_batch` of the queue of src/blockchecks/engine/adaptive_queue.py.
use mathlib.Core.Path.{subst}
use blockcheck_s.Prelude.{
  map, ℕ, suc, ◌-◌, ◌≤◌, Bool, true, false, ◌||◌, String, Option, none, some, List, [], ◌∷◌,
  string_eq, pair_eq, eqb, ◌==◌, if◌then◌else◌, ◌≡◌, sym, ap, arith, if_both, if_split,
  option_split, refl, ◌∙◌, ==_iff, Option-cases, inl, inr,
}
use blockcheck_s.Prelude.Int.{ℤ, at_least, leb_ℤ, at_least_lem}
use blockcheck_s.Prelude.Lists.{length, All, All-append, All-map, length-append}
use blockcheck_s.Prelude.Dict.{lookup, contains, Distinct}
use blockcheck_s.Job.{AdaptiveJob, key}
use blockcheck_s.Fanout.{CurlProfile, curl_profile, profiles_compatible}
use blockcheck_s.Queue.{
  Genetics, Random, Key, AdaptiveJobQueue, drop_pending, maybe_compact_heap, rebuild_heap,
}
use blockcheck_s.Queue.Invariant.{
  IsValid, lookup-drop_pending, drop_pending-IsValid, maybe_compact_heap-IsValid,
}
use blockcheck_s.Queue.Promise.{IsPopped, Remembers}
use blockcheck_s.Queue.Popped.{pop-Pops}
use blockcheck_s.Queue.Exploring.{IsFair}
use blockcheck_s.Queue.Remembers.{Knows, drop_pending-Knows, maybe_compact_heap-Knows}
use blockcheck_s.Queue.Taking.{
  WerePending, HasLeft, HasLeft-trans, HasLeft-old, Distinct-one, TakesOut, TakesOut-cons,
}
use blockcheck_s.Queue.Bulk.{
  is_wanted, taken_at, fill_batch, batch_from, pop_batch, pending_domains_for_strategy,
}

-- What a job of the batch has in common with the first.
pub record IsMate (profile : String → CurlProfile) (first job : AdaptiveJob) : Type 0 where
  pub same_label : job.item.label ≡ first.item.label
  pub other_domain : (job.domain == first.domain) ≡ false
  pub compatible : profiles_compatible (profile first.domain) (profile job.domain) ≡ true

IsMate-is_wanted :
    (profile : String → CurlProfile) (first job : AdaptiveJob) (d : String)
    → key job ≡ (first.item.label, d)
    → is_wanted profile first d ≡ true
    → IsMate profile first job
unfolding is_wanted
IsMate-is_wanted profile first job d e w =
    let at : d ≡ job.domain = ap (λ k. k.1) (sym e) in
    let x : (d == first.domain) ≡ false = ground (arith, w) in
    let y : profiles_compatible (profile first.domain) (profile d) ≡ true = ground (arith, w) in
    record {
      same_label = ap (λ k. k.0) e;
      other_domain = subst (λ j. (j == first.domain) ≡ false) at x;
      compatible = subst (λ j. profiles_compatible (profile first.domain) (profile j) ≡ true) at y;
    }

abbrev IsOne : (String → CurlProfile) → AdaptiveJob → List AdaptiveJob → Type 0
IsOne profile first b = All (IsMate profile first) b × (length b ≤ 1)

module _ {S : Type 0} (profile : String → CurlProfile) (first : AdaptiveJob) (g : Genetics)
    (done : List Key) where
  -- The queue is valid and knows what was done before; the batch fits and goes with the first job; its
  -- jobs were pending, and of the pending ones they alone have gone.
  pub record IsFilled (room : ℕ) (q : AdaptiveJobQueue S)
      (r : AdaptiveJobQueue S × List AdaptiveJob) : Type 0 where
    pub valid : IsValid r.0 []
    pub knows : Knows g done r.0
    pub mates : All (IsMate profile first) r.1
    pub fits : length r.1 ≤ room
    pub were : WerePending q r.1
    pub once : Distinct (map key r.1)
    pub left : HasLeft q r

  -- The queue after the look at a domain.
  abbrev after_taking : AdaptiveJobQueue S → String → AdaptiveJobQueue S
  after_taking q d = if is_wanted profile first d then drop_pending q (first.item.label, d) else q

  after_taking-HasLeft :
      (q : AdaptiveJobQueue S) (d : String)
      → IsValid q []
      → HasLeft q (after_taking q d, taken_at profile first q d)
  unfolding taken_at contains
  after_taking-HasLeft q d h k =
      let at : Key = (first.item.label, d) in
      elim (Option-cases (lookup at q.pending)) [
        | inl e ↦
            ground (arith, e, lookup-drop_pending q at k, ==_iff at k, ap (λ x. lookup x q.pending))
        | inr (job, e) ↦
            ground (arith, e, lookup-drop_pending q at k, ap (λ x. x == k) (h.filed at job e))
      ]

  taken_at-WerePending :
      (q : AdaptiveJobQueue S) (d : String)
      → IsValid q []
      → WerePending q (taken_at profile first q d)
  unfolding taken_at
  taken_at-WerePending q d h =
      let at : Key = (first.item.label, d) in
      option_split {B = List AdaptiveJob} (WerePending q) (lookup at q.pending) _ _ (λ gone. tt)
        (λ job found.
          if_both {A = List AdaptiveJob} (WerePending q) (is_wanted profile first d) (job ∷ []) []
            (ap (λ k. lookup k q.pending) (h.filed at job found) ∙ found, tt) tt)

  taken_at-IsOne :
      (q : AdaptiveJobQueue S) (d : String)
      → IsValid q []
      → (IsOne profile first) (taken_at profile first q d)
  unfolding taken_at
  taken_at-IsOne q d h =
      option_split {B = List AdaptiveJob} (IsOne profile first)
        (lookup (first.item.label, d) q.pending) []
        (λ job. if is_wanted profile first d then job ∷ [] else []) (λ gone. (tt, omega arith))
        (λ job found.
          if_split (IsOne profile first) (is_wanted profile first d) (job ∷ []) []
            (λ w. (
              (
                IsMate-is_wanted profile first job d (h.filed (first.item.label, d) job found) w,
                tt,
              ),
              omega arith,
            ))
            (λ n. (tt, omega arith)))

  fill_batch-IsFilled :
      (room : ℕ) (q : AdaptiveJobQueue S) (ds : List String)
      → IsValid q []
      → Knows g done q
      → IsFilled room q (fill_batch profile first room q ds)
  unfolding fill_batch contains
  fill_batch-IsFilled room q [] h k = record {
    valid = h;
    knows = k;
    mates = tt;
    fits = omega arith;
    were = tt;
    once = tt;
    left = λ j. refl;
  }
  fill_batch-IsFilled room q (d ∷ ds) h k =
      let one = taken_at-IsOne q d h in
      let taken = taken_at profile first q d in
      let q' = after_taking q d in
      let r = fill_batch profile first (room - length taken) q' ds in
      let step = after_taking-HasLeft q d h in
      let rest =
        fill_batch-IsFilled (room - length taken) q' ds
          (if_both {A = AdaptiveJobQueue S} (λ r. IsValid r []) (is_wanted profile first d) _ q
            (drop_pending-IsValid q (first.item.label, d) [] h) h)
          (if_both {A = AdaptiveJobQueue S} (Knows g done) (is_wanted profile first d) _ q
            (drop_pending-Knows g done q (first.item.label, d) k) k) in
      if_split {A = AdaptiveJobQueue S × List AdaptiveJob} (IsFilled room q) (eqb room 0) (q, []) _
        (λ full. record {
          valid = h;
          knows = k;
          mates = tt;
          fits = omega arith;
          were = tt;
          once = tt;
          left = λ j. refl;
        })
        (λ left. record {
          valid = rest.valid;
          knows = rest.knows;
          mates = All-append (IsMate profile first) taken r.1 one.0 rest.mates;
          fits = ground (arith, length-append taken r.1, one.1, rest.fits, left);
          were =
              All-append (λ job. lookup (key job) q.pending ≡ some job) taken r.1
                (taken_at-WerePending q d h)
                (All-map (λ job. lookup (key job) q'.pending ≡ some job)
                  (λ job. lookup (key job) q.pending ≡ some job)
                  (λ job e. HasLeft-old q q' taken (key job) job step e) r.1 rest.were);
          once = Distinct-one q q' taken r.1 one.1 step rest.were rest.once;
          left = HasLeft-trans q q' r.0 taken r.1 step rest.left;
        })

-- The batch of `pop_batch`, its first job set apart: `q` and `q'` are the queue before and after.
abbrev pub IsBatch :
    {S : Type 0} → (String → CurlProfile) → ℕ → AdaptiveJobQueue S → List AdaptiveJob → Type 0
IsBatch profile n q [] =
    (k : Key) (job : AdaptiveJob)
    → lookup k q.pending ≡ some job
    → contains q.excluded_domains job.domain ≡ true
IsBatch profile n q (first ∷ more) =
    (lookup (key first) q.pending ≡ some first)
    × (contains q.excluded_domains first.domain ≡ false)
    × All (IsMate profile first) more
    × (suc (length more) ≤ n)

pub record IsBatched {S : Type 0} (profile : String → CurlProfile) (n : ℕ) (q : AdaptiveJobQueue S)
    (r : AdaptiveJobQueue S × List AdaptiveJob) : Type 0 where
  pub valid : IsValid r.0 []
  pub remembers : Remembers q r.0
  pub batch : IsBatch profile n q r.1
  pub takes : TakesOut q r.0 r.1

pending-maybe_compact_heap :
    {S : Type 0} (g : Genetics) (q : AdaptiveJobQueue S)
    → (maybe_compact_heap g q).pending ≡ q.pending
unfolding maybe_compact_heap rebuild_heap
pending-maybe_compact_heap g q = ground arith

module _ (g : Genetics) (r : Random) (fair : IsFair r) (max_size : ℤ) (protocol : String)
    (disable_ech : Bool) where
  abbrev profile : String → CurlProfile
  profile d = curl_profile d protocol disable_ech

  abbrev pub Batches :
      AdaptiveJobQueue r.State → Option (AdaptiveJobQueue r.State × List AdaptiveJob) → Type 0
  Batches q o =
      (res : AdaptiveJobQueue r.State × List AdaptiveJob) × (o ≡ some res)
      × IsBatched (λ d. curl_profile d protocol disable_ech) (at_least 1 max_size) q res

  batch_from-IsBatched :
      (q q' : AdaptiveJobQueue r.State) (found : Option AdaptiveJob)
      → IsPopped q q' found
      → IsBatched profile
          (at_least 1 max_size)
          q
          (batch_from g max_size protocol disable_ech q' found)
  unfolding batch_from contains
  batch_from-IsBatched q q' none h = record {
    valid = h.valid;
    remembers = h.remembers;
    batch = h.none_open;
    takes = record {
      were = tt;
      once = tt;
      gone = tt;
      kept = λ k job o new. ground (arith, o.1, h.none_open k job o.0);
    };
  }
  batch_from-IsBatched q q' (some first) h =
      let filled =
        fill_batch profile first (at_least 1 max_size - 1) q'
          (pending_domains_for_strategy q' first.item.label) in
      let f =
        fill_batch-IsFilled profile first g q.finished (at_least 1 max_size - 1) q'
          (pending_domains_for_strategy q' first.item.label) h.valid h.remembers in
      if_both {A = AdaptiveJobQueue r.State × List AdaptiveJob}
        (IsBatched profile (at_least 1 max_size) q)
        (leb_ℤ max_size 1 || (profile first.domain).special) _ _
        (record {
          valid = h.valid;
          remembers = h.remembers;
          batch = (h.opened.0, h.opened.1, tt, at_least_lem 1 max_size);
          takes = TakesOut-cons q q' q' first [] h tt tt (λ k. refl);
        })
        (record {
          valid = maybe_compact_heap-IsValid g _ f.valid;
          remembers = maybe_compact_heap-Knows g q.finished _ f.knows;
          batch = (h.opened.0, h.opened.1, f.mates, omega (arith, f.fits, at_least_lem 1 max_size));
          takes =
              TakesOut-cons q q' _ first _ h f.were f.once
                (λ k. ap (λ m. lookup k m) (pending-maybe_compact_heap g filled.0) ∙ f.left k);
        })

  -- On a valid queue `pop_batch` returns, if `randint(1, 1)` is 1, and leaves the queue valid with
  -- every key that was done. Its batch has at most `max_size` jobs, or one where that is below 1; the
  -- first was pending and is not excluded for good, and each other has the label of the first, another
  -- domain, and a curl profile compatible with the first. The jobs of the batch have different keys, were
  -- pending and are so no more, and every other pending job that is not excluded for good still is. The batch is empty only
  -- if every pending job is excluded for good.
  pub pop_batch-Batches :
      (q : AdaptiveJobQueue r.State)
      → IsValid q []
      → Batches q (pop_batch r g q max_size protocol disable_ech)
  unfolding pop_batch
  pop_batch-Batches q h =
      let (res, e, good) = pop-Pops g r fair q [] h in
      (
        batch_from g max_size protocol disable_ech res.0 res.1,
        ground (arith, e),
        batch_from-IsBatched q res.0 res.1 good,
      )

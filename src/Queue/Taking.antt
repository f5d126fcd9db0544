-- ===== src/Queue/Taking.antt =====
-- The jobs that `pop_batch` of src/blockchecks/engine/adaptive_queue.py takes out of the queue.
use mathlib.Core.List.{map-append}
use blockcheck_s.Prelude.{
  true, false, none, some, List, [], ◌∷◌, string_eq, pair_eq, if◌then◌else◌, ◌≡◌, refl, ◌≤◌, ap,
  arith, map, ◌++◌, ==_iff,
}
use blockcheck_s.Prelude.Lists.{length, All, All-map}
use blockcheck_s.Prelude.Dict.{lookup, has_key, contains, Distinct, contains-append}
use blockcheck_s.Job.{AdaptiveJob, key}
use blockcheck_s.Queue.{Key, AdaptiveJobQueue}
use blockcheck_s.Queue.Promise.{IsOpen, IsTaken}

holds_keys : (js : List AdaptiveJob) → All (λ job. contains (map key js) (key job) ≡ true) js
unfolding contains
holds_keys [] = tt
holds_keys (j ∷ js) = (
  ground (arith, ==_iff (key j) (key j)),
  All-map (λ job. contains (map key js) (key job) ≡ true)
      (λ job. contains (map key (j ∷ js)) (key job) ≡ true) (λ job h. ground (arith, h)) js
      (holds_keys js),
)

module _ {S : Type 0} where
  -- The jobs were pending in the queue.
  abbrev pub WerePending : AdaptiveJobQueue S → List AdaptiveJob → Type 0
  WerePending q js = All (λ job. lookup (key job) q.pending ≡ some job) js

  -- Of what was pending, exactly the keys of the batch are so no more.
  abbrev pub HasLeft : AdaptiveJobQueue S → AdaptiveJobQueue S × List AdaptiveJob → Type 0
  HasLeft q r =
      (k : Key)
      → lookup k r.0.pending ≡ (if contains (map key r.1) k then none else lookup k q.pending)

  pub HasLeft-trans :
      (a b c : AdaptiveJobQueue S) (xs ys : List AdaptiveJob)
      → HasLeft a (b, xs)
      → HasLeft b (c, ys)
      → HasLeft a (c, xs ++ ys)
  HasLeft-trans a b c xs ys h k at = ground (
    arith,
    h at,
    k at,
    contains-append (map key xs) (map key ys) at,
    ap (λ ks. contains ks at) (map-append key xs ys),
  )

  -- What was pending after some jobs were taken was so before.
  pub HasLeft-old :
      (a b : AdaptiveJobQueue S) (xs : List AdaptiveJob) (k : Key) (job : AdaptiveJob)
      → HasLeft a (b, xs)
      → lookup k b.pending ≡ some job
      → lookup k a.pending ≡ some job
  HasLeft-old a b xs k job h e = ground (arith, h k, e)

  absent :
      (q : AdaptiveJobQueue S) (js : List AdaptiveJob) (k : Key)
      → WerePending q js
      → has_key k q.pending ≡ false
      → contains (map key js) k ≡ false
  unfolding contains
  absent q [] k h e = refl
  absent q (j ∷ js) k h e = ground (
    arith,
    absent q js k h.1 e,
    ==_iff (key j) k,
    h.0,
    e,
    ap {A = Key} (λ x. has_key x q.pending) {x = key j} {y = k},
  )

  -- One job at most, and then others that were pending after it.
  pub Distinct-one :
      (q q' : AdaptiveJobQueue S) (xs more : List AdaptiveJob)
      → length xs ≤ 1
      → HasLeft q (q', xs)
      → WerePending q' more
      → Distinct (map key more)
      → Distinct (map key (xs ++ more))
  unfolding contains
  Distinct-one q q' [] more n left were d = d
  Distinct-one q q' (x ∷ []) more n left were d =
      (absent q' more (key x) were (ground (arith, left (key x), ==_iff (key x) (key x))), d)
  Distinct-one q q' (x ∷ y ∷ xs) more n left were d = absurd (omega (arith, n))

  -- What a batch takes out of the queue: its jobs have different keys, were pending and are so no more, and every other
  -- pending job that is not excluded for good still is.
  pub record TakesOut (q q' : AdaptiveJobQueue S) (batch : List AdaptiveJob) : Type 0 where
    pub were : All (λ job. lookup (key job) q.pending ≡ some job) batch
    pub once : Distinct (map key batch)
    pub gone : All (λ job. has_key (key job) q'.pending ≡ false) batch
    pub kept :
        (k : Key) (job : AdaptiveJob)
        → IsOpen q k job
        → contains (map key batch) k ≡ false
        → lookup k q'.pending ≡ some job

  -- The first job, and then the others.
  pub TakesOut-cons :
      (q q' q'' : AdaptiveJobQueue S) (first : AdaptiveJob) (more : List AdaptiveJob)
      → IsTaken q q' first
      → WerePending q' more
      → Distinct (map key more)
      → HasLeft q' (q'', more)
      → TakesOut q q'' (first ∷ more)
  unfolding contains
  TakesOut-cons q q' q'' first more h were d left = record {
    were = (
      h.opened.0,
      All-map (λ job. lookup (key job) q'.pending ≡ some job)
          (λ job. lookup (key job) q.pending ≡ some job) (λ job e. h.old (key job) job e) more were,
    );
    once = (absent q' more (key first) were h.gone, d);
    gone = (
      ground (arith, left (key first), h.gone),
      All-map (λ job. contains (map key more) (key job) ≡ true)
          (λ job. has_key (key job) q''.pending ≡ false)
          (λ job e. ground (arith, left (key job), e)) more (holds_keys more),
    );
    kept = λ k job o new. ground (arith, left k, h.kept k job o (ground (arith, new)), new);
  }

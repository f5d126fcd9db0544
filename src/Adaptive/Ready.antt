-- ===== src/Adaptive/Ready.antt =====
-- The queue that `build_adaptive_queue` of src/blockchecks/engine/adaptive_runner.py returns.
use blockcheck_s.Prelude.{
  ℕ, Bool, true, false, ◌&&◌, ◌||◌, not, String, Option, none, some, List, [], ◌∷◌, string_eq,
  pair_eq, eqb, if◌then◌else◌, ◌≡◌, arith, if_both, if_split,
}
use blockcheck_s.Prelude.Int.{ℤ, pos, at_least}
use blockcheck_s.Prelude.Lists.{All, All-append}
use blockcheck_s.Prelude.Dict.{lookup, has_key, contains, add, lookup-insert}
use blockcheck_s.Job.{StrategyItem, AdaptiveJob, key}
use blockcheck_s.Weights.{ScanWeights}
use blockcheck_s.Queue.{
  Genetics, Key, AdaptiveJobQueue, drop_pending, enqueue, enqueue_many, push_entry,
  maybe_compact_heap, rebuild_heap,
}
use blockcheck_s.Queue.Bulk.{
  build, seeded, new_queue, item_jobs, matrix_jobs, drop_flagged, resume_flags, filter_resume,
}
use blockcheck_s.Queue.Results.{from_item}
use blockcheck_s.Queue.Invariant.{IsValid, lookup-drop_pending}
use blockcheck_s.Queue.Keeps.{build-IsValid, filter_resume-IsValid}
use blockcheck_s.Quarantine.{DomainQuarantine}
use blockcheck_s.Triage.{TriageProfile}
use blockcheck_s.Adaptive.{extra_of}
use blockcheck_s.Adaptive.Start.{PassRow, start_weights, build_adaptive_queue}

-- A test that every pending job passes.
module _ (g : Genetics) (test : AdaptiveJob → Bool) where
  abbrev AllPending : {S : Type 0} → AdaptiveJobQueue S → Type 0
  AllPending q = (k : Key) (job : AdaptiveJob) → lookup k q.pending ≡ some job → test job ≡ true

  module _ {S : Type 0} where
    enqueue-AllPending :
        (q : AdaptiveJobQueue S) (job : AdaptiveJob)
        → test job ≡ true
        → AllPending q
        → AllPending (enqueue g q job).0
    unfolding enqueue push_entry
    enqueue-AllPending q job p h =
        if_both {A = AdaptiveJobQueue S × Bool} (λ x. AllPending x.0)
          (has_key (key job) q.pending || contains q.finished (key job)) (q, false) _ h
          (λ k j e. ground (arith, h k j, p, e, lookup-insert (key job) k job q.pending))

    enqueue_many-AllPending :
        (q : AdaptiveJobQueue S) (jobs : List AdaptiveJob)
        → All (λ j. test j ≡ true) jobs
        → AllPending q
        → AllPending (enqueue_many g q jobs).0
    unfolding enqueue_many
    enqueue_many-AllPending q [] p h = h
    enqueue_many-AllPending q (job ∷ jobs) p h =
        enqueue_many-AllPending (enqueue g q job).0 jobs p.1 (enqueue-AllPending q job p.0 h)

    drop_flagged-AllPending :
        (q : AdaptiveJobQueue S) (flags : List (Key × Bool))
        → AllPending q
        → AllPending (drop_flagged q flags).0
    unfolding drop_flagged
    drop_flagged-AllPending q [] h = h
    drop_flagged-AllPending q ((k, drop) ∷ flags) h =
        let marked : AdaptiveJobQueue S = record q { finished = add k q.finished } in
        drop_flagged-AllPending (if drop && has_key k q.pending then drop_pending marked k else q)
          flags
          (if_both {A = AdaptiveJobQueue S} AllPending (drop && has_key k q.pending)
            (drop_pending marked k) q
            (λ j job e. ground (arith, h j job, e, lookup-drop_pending marked k j)) h)

    filter_resume-AllPending :
        (check : AdaptiveJob → Bool) (n : ℤ) (q : AdaptiveJobQueue S)
        → AllPending q
        → AllPending (filter_resume g check n q).0
    unfolding filter_resume maybe_compact_heap rebuild_heap
    filter_resume-AllPending check n q h =
        let flags = resume_flags check (at_least 1 n) q.pending in
        let k = drop_flagged-AllPending q flags h in
        let d = (drop_flagged q flags).0 in
        if_both {A = AdaptiveJobQueue S × ℕ} (λ x. AllPending x.0) (eqb (drop_flagged q flags).1 0)
          (d, 0) _ k (if_both {A = AdaptiveJobQueue S} AllPending _ (rebuild_heap g d) d k k)

-- The job is on none of the domains to skip, and its key is none of those to skip.
unfoldable pub is_allowed : List String → List Key → AdaptiveJob → Bool
is_allowed skip_domains skip_keys job =
    not (contains skip_domains job.domain) && not (contains skip_keys (key job))

module _ (g : Genetics) (skip_domains : List String) (skip_keys : List Key) where
  abbrev AllAllowed : List AdaptiveJob → Type 0
  AllAllowed = All (λ j. is_allowed skip_domains skip_keys j ≡ true)

  item_jobs-AllAllowed :
      (item : StrategyItem) (ds : List String)
      → AllAllowed (item_jobs g skip_domains skip_keys item ds)
  unfolding item_jobs is_allowed from_item
  item_jobs-AllAllowed item [] = tt
  item_jobs-AllAllowed item (d ∷ ds) =
      if_split AllAllowed
        (not (contains skip_domains d) && not (contains skip_keys (item.label, d))) _ _
        (λ e. (e, item_jobs-AllAllowed item ds)) (λ e. item_jobs-AllAllowed item ds)

  matrix_jobs-AllAllowed :
      (items : List StrategyItem) (ds : List String)
      → AllAllowed (matrix_jobs g skip_domains skip_keys items ds)
  unfolding matrix_jobs
  matrix_jobs-AllAllowed [] ds = tt
  matrix_jobs-AllAllowed (item ∷ items) ds =
      All-append (λ j. is_allowed skip_domains skip_keys j ≡ true) _ _
        (item_jobs-AllAllowed item ds) (matrix_jobs-AllAllowed items ds)

  build-AllPending :
      {S : Type 0} (items : List StrategyItem) (domains : List String) (w : ScanWeights) (e : ℤ)
      (s : S) (now : ℕ)
      → AllPending g
          (is_allowed skip_domains skip_keys)
          (build g skip_domains skip_keys items domains w e s now)
  unfolding build seeded new_queue lookup
  build-AllPending items domains w e s now =
      enqueue_many-AllPending g (is_allowed skip_domains skip_keys)
        (seeded g skip_domains skip_keys items domains w e s now)
        (matrix_jobs g skip_domains skip_keys items domains) (matrix_jobs-AllAllowed items domains)
        (λ k job p. absurd (cc p))

-- The queue is valid, and every pending job is allowed.
pub record IsReady {S : Type 0} (skip_domains : List String) (skip_keys : List Key)
    (q : AdaptiveJobQueue S) : Type 0 where
  pub valid : IsValid q []
  pub allowed :
      (k : Key) (job : AdaptiveJob)
      → lookup k q.pending ≡ some job
      → is_allowed skip_domains skip_keys job ≡ true

-- Whatever the store, the provider, the triage and the resume check say: the queue at the start is valid,
-- and no pending job is on a quarantined domain or has a key that is to be skipped.
pub build_adaptive_queue-IsReady :
    {S Other : Type 0} (g : Genetics) (items : List StrategyItem) (domains : List String)
    (rows : List (String × ℕ)) (passes : List PassRow) (triage : Option (TriageProfile Other))
    (quarantine : Option DomainQuarantine) (skip_keys : List Key)
    (resume_check : Option (AdaptiveJob → Bool)) (epsilon : ℤ) (rng : S) (now : ℕ)
    → IsReady
        (extra_of quarantine)
        skip_keys
        (build_adaptive_queue g items domains rows passes triage quarantine skip_keys resume_check
          epsilon rng now).0
unfolding build_adaptive_queue
build_adaptive_queue-IsReady {S} g items domains rows passes triage quarantine skip_keys
      resume_check epsilon rng now =
    let weights = start_weights g rows passes triage domains in
    let skip_domains = extra_of quarantine in
    let built : AdaptiveJobQueue S =
      build g skip_domains skip_keys items domains weights epsilon rng now in
    let valid = build-IsValid g skip_domains skip_keys items domains weights epsilon rng now in
    let allowed = build-AllPending g skip_domains skip_keys items domains weights epsilon rng now in
    elim resume_check
      as (λ o. IsReady skip_domains skip_keys (elim o as (λ x. AdaptiveJobQueue S) [
        | none ↦ built
        | some check ↦ (filter_resume g check (pos 512) built).0
      ])) [
        | none ↦ record { valid = valid; allowed = allowed }
        | some check ↦ record {
          valid = filter_resume-IsValid g check (pos 512) built valid;
          allowed =
              filter_resume-AllPending g (is_allowed skip_domains skip_keys) check (pos 512) built
                allowed;
        }
      ]

-- ===== src/Queue/Session.antt =====
-- Any sequence of calls on the queue of src/blockchecks/engine/adaptive_queue.py.
use mathlib.Core.Path.{subst}
use blockcheck_s.Prelude.{
  ℕ, Bool, false, String, Option, none, some, List, [], string_eq, pair_eq, ◌≡◌, arith, Bool-cases,
  inl, inr,
}
use blockcheck_s.Prelude.Int.{ℤ}
use blockcheck_s.Prelude.Dict.{contains}
use blockcheck_s.Job.{AdaptiveJob, key}
use blockcheck_s.Queue.{Genetics, Random, Key, AdaptiveJobQueue, enqueue, configure_heap_rebuild}
use blockcheck_s.Queue.Pop.{pop}
use blockcheck_s.Queue.Results.{mark_done}
use blockcheck_s.Queue.Bulk.{filter_resume, pop_batch}
use blockcheck_s.Queue.Invariant.{IsValid, enqueue-IsValid}
use blockcheck_s.Queue.Keeps.{mark_done-IsValid, filter_resume-IsValid}
use blockcheck_s.Queue.Remembers.{Knows, enqueue-Knows, mark_done-Knows, filter_resume-Knows}
use blockcheck_s.Queue.Promise.{IsPopped}
use blockcheck_s.Queue.Exploring.{IsFair}
use blockcheck_s.Queue.Popped.{pop-Pops}
use blockcheck_s.Queue.Batches.{pop_batch-Batches}

module _ (g : Genetics) (r : Random) where
  -- A call of the workers: the queue before and after it. `excludes` is what the quarantine does to
  -- `excluded_domains`.
  pub data Step : AdaptiveJobQueue r.State → AdaptiveJobQueue r.State → Type 0 where
    enqueues : (q : AdaptiveJobQueue r.State) (job : AdaptiveJob) → Step q (enqueue g q job).0
    marks :
        (q : AdaptiveJobQueue r.State) (now : ℕ) (job : AdaptiveJob) (passed : Bool)
        → Step q (mark_done g q now job passed).0
    filters :
        (q : AdaptiveJobQueue r.State) (check : AdaptiveJob → Bool) (chunk_size : ℤ)
        → Step q (filter_resume g check chunk_size q).0
    configures :
        (q : AdaptiveJobQueue r.State) (every : ℤ) → Step q (configure_heap_rebuild q every)
    excludes :
        (q : AdaptiveJobQueue r.State) (domains : List String)
        → Step q (record q { excluded_domains = domains })
    pops :
        (q q' : AdaptiveJobQueue r.State) (soft : List String) (job : Option AdaptiveJob)
        → pop r g q soft ≡ some (q', job)
        → Step q q'
    pops_batch :
        (q q' : AdaptiveJobQueue r.State) (n : ℤ) (protocol : String) (disable_ech : Bool)
        (batch : List AdaptiveJob)
        → pop_batch r g q n protocol disable_ech ≡ some (q', batch)
        → Step q q'

  pub data Reaches : AdaptiveJobQueue r.State → AdaptiveJobQueue r.State → Type 0 where
    here : (q : AdaptiveJobQueue r.State) → Reaches q q
    next : (q a b : AdaptiveJobQueue r.State) → Step q a → Reaches a b → Reaches q b

  module _ (fair : IsFair r) (done : List Key) where
    abbrev pub IsKept : AdaptiveJobQueue r.State → Type 0
    IsKept q = IsValid q [] × Knows g done q

    pop-IsKept :
        (q q' : AdaptiveJobQueue r.State) (job : Option AdaptiveJob)
        → IsPopped q q' job
        → IsKept q
        → IsKept q'
    pop-IsKept q q' none p h = (p.valid, λ k e. p.remembers k (h.1 k e))
    pop-IsKept q q' (some job) p h = (p.valid, λ k e. p.remembers k (h.1 k e))

    popped :
        {q q' : AdaptiveJobQueue r.State} (soft : List String) {job : Option AdaptiveJob}
        → pop r g q soft ≡ some (q', job)
        → IsValid q []
        → IsPopped q q' job
    popped {q} {q'} soft {job} e h =
        let (res, e', p) = pop-Pops g r fair q soft h in
        let same : res ≡ (q', job) = cc (e, e') in subst (λ x. IsPopped q x.0 x.1) same p

    Step-IsKept : (q q' : AdaptiveJobQueue r.State) → Step q q' → IsKept q → IsKept q'
    unfolding configure_heap_rebuild
    Step-IsKept _ _ (enqueues q job) h =
        (enqueue-IsValid g q job h.0, enqueue-Knows g done q job h.1)
    Step-IsKept _ _ (marks q now job passed) h =
        (mark_done-IsValid g q now job passed h.0, mark_done-Knows g done q now job passed h.1)
    Step-IsKept _ _ (filters q check chunk_size) h = (
      filter_resume-IsValid g check chunk_size q h.0,
      filter_resume-Knows g done check chunk_size q h.1,
    )
    Step-IsKept _ _ (configures q every) h = (
      record {
        filed = h.0.filed;
        all_filed = h.0.all_filed;
        not_finished = h.0.not_finished;
        covered = h.0.covered;
        ordered = h.0.ordered;
      },
      h.1,
    )
    Step-IsKept _ _ (excludes q domains) h = (
      record {
        filed = h.0.filed;
        all_filed = h.0.all_filed;
        not_finished = h.0.not_finished;
        covered = h.0.covered;
        ordered = h.0.ordered;
      },
      h.1,
    )
    Step-IsKept _ _ (pops q q' soft job e) h = pop-IsKept q q' job (popped soft e h.0) h
    Step-IsKept _ _ (pops_batch q q' n protocol disable_ech batch e) h =
        let (res, e', b) = pop_batch-Batches g r fair n protocol disable_ech q h.0 in
        let same : res ≡ (q', batch) = cc (e, e') in
        let valid = subst (λ x. IsValid x.0 []) same b.valid in
        let knows : Knows g done res.0 = λ k p. b.remembers k (h.1 k p) in
        (valid, subst (λ x. Knows g done x.0) same knows)

    pub Reaches-IsKept : (q q' : AdaptiveJobQueue r.State) → Reaches q q' → IsKept q → IsKept q'
    Reaches-IsKept _ _ (here q) h = h
    Reaches-IsKept _ _ (next q a b s t) h = Reaches-IsKept a b t (Step-IsKept q a s h)

    -- From a valid queue that knows the keys of `done` as done, whatever calls follow, and if
    -- `randint(1, 1)` is 1: the queue is valid and still knows those keys, and a job that `pop` then
    -- returns has none of them.
    pub done_stays_done :
        (q q' last : AdaptiveJobQueue r.State) (soft : List String) (job : AdaptiveJob)
        → IsKept q
        → Reaches q q'
        → pop r g q' soft ≡ some (last, some job)
        → IsValid q' [] × Knows g done q' × (contains done (key job) ≡ false)
    done_stays_done q q' last soft job h reach e =
        let k = Reaches-IsKept q q' reach h in
        let p = popped soft e k.0 in
        let fresh_key = k.0.not_finished (key job) (ground (arith, p.opened.0)) in
        (
          k.0,
          k.1,
          elim (Bool-cases (contains done (key job))) [
            | inl old ↦ absurd (cc (fresh_key, k.1 (key job) old))
            | inr new ↦ new
          ],
        )

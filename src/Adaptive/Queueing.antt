-- ===== src/Adaptive/Queueing.antt =====
-- What the workers of src/blockchecks/engine/adaptive_runner.py do to the queue.
use mathlib.Core.Path.{subst}
use blockcheck_s.Prelude.{
  ℕ, Bool, true, false, ◌||◌, String, Option, none, some, List, [], ◌∷◌, ◌++◌, map, string_eq,
  pair_eq, ==_iff, ◌≡◌, arith, if_both, option_split, Bool-cases, inl, inr,
}
use blockcheck_s.Prelude.Dict.{lookup, contains, contains-append}
use blockcheck_s.Job.{AdaptiveJob, key}
use blockcheck_s.Queue.{Genetics, Random, Key, AdaptiveJobQueue}
use blockcheck_s.Queue.Pop.{pop}
use blockcheck_s.Queue.Results.{mark_done}
use blockcheck_s.Queue.Invariant.{IsValid}
use blockcheck_s.Queue.Exploring.{IsFair}
use blockcheck_s.Queue.Promise.{IsPopped}
use blockcheck_s.Queue.Keeps.{mark_done-IsValid}
use blockcheck_s.Queue.Remembers.{mark_done-Knows, mark_done-finished}
use blockcheck_s.Queue.Popped.{pop-Pops}
use blockcheck_s.Bridge.{
  TcpTestResult, Account, account_ok, account_skipped, result_campaign_pass, run_bridge_batch,
}
use blockcheck_s.Adaptive.{
  Shared, Worker, After, account, account_as_skipped, account_call, run_calls, after_pop,
  after_batch, after_single, by_key, bridge_job, bridge_job_of, bridge_key,
}
use blockcheck_s.Adaptive.Steps.{Team, Move, starts, pops, ends_batch, ends_single, Run, Run-keeps}
use blockcheck_s.Prelude.Int.{ℤ}
use blockcheck_s.Adaptive.{start_worker}
use blockcheck_s.Queue.{configure_heap_rebuild}

module _ {S : Type 0} where
  -- The queue is valid and knows as done every key that was accounted.
  pub record IsSound (s : Shared S) : Type 0 where
    pub valid : IsValid s.queue []
    pub knows : (k : Key) → contains s.accounted k ≡ true → contains s.queue.finished k ≡ true

-- The excluded domains are no part of the invariant of the queue.
IsValid-exclude :
    {S : Type 0} (q : AdaptiveJobQueue S) (excluded : List String)
    → IsValid q []
    → IsValid (record q { excluded_domains = excluded }) []
IsValid-exclude q excluded h = record {
  filed = h.filed;
  all_filed = h.all_filed;
  not_finished = h.not_finished;
  covered = h.covered;
  ordered = h.ordered;
}

module _ {S : Type 0} (g : Genetics) (clock : ℕ → ℕ × String) where
  abbrev A : Shared S → Type 0
  A s = IsSound s

  mark_done-knows :
      (s : Shared S) (now : ℕ) (job : AdaptiveJob) (ok : Bool)
      → A s
      → (k : Key) → contains (s.accounted ++ key job ∷ []) k ≡ true
      → contains (mark_done g s.queue now job ok).0.finished k ≡ true
  unfolding contains
  mark_done-knows s now job ok h k e = ground (
    arith,
    e,
    contains-append s.accounted (key job ∷ []) k,
    ==_iff (key job) k,
    mark_done-finished g s.queue now job ok,
    mark_done-Knows g s.accounted s.queue now job ok h.knows k,
  )

  account-IsSound :
      (s : Shared S) (job : AdaptiveJob) (ok : Bool) (result : TcpTestResult)
      → A s
      → A (account g clock s job ok result)
  unfolding account
  account-IsSound s job ok result h = record {
    valid = IsValid-exclude _ _ (mark_done-IsValid g s.queue (clock s.stats.done).0 job ok h.valid);
    knows = mark_done-knows s (clock s.stats.done).0 job ok h;
  }

  account_as_skipped-IsSound :
      (s : Shared S) (job : AdaptiveJob) → A s → A (account_as_skipped g clock s job)
  unfolding account_as_skipped
  account_as_skipped-IsSound s job h = record {
    valid = mark_done-IsValid g s.queue (clock s.stats.done).0 job false h.valid;
    knows = mark_done-knows s (clock s.stats.done).0 job false h;
  }

  account_call-IsSound :
      (s : Shared S) (job : AdaptiveJob) (call : Account)
      → A s
      → A (account_call g clock s job call)
  unfolding account_call
  account_call-IsSound s job (account_ok found ok result) h = account-IsSound s job ok result h
  account_call-IsSound s job (account_skipped found) h = account_as_skipped-IsSound s job h

  run_calls-IsSound :
      (m : List (Key × AdaptiveJob)) (calls : List Account) (s : Shared S)
      → A s
      → A (run_calls g clock m calls s).0
  unfolding run_calls
  run_calls-IsSound m [] s h = h
  run_calls-IsSound m (call ∷ calls) s h =
      option_split {B = Shared S × Bool} (λ x. A x.0) (lookup (bridge_key (bridge_job_of call)) m) _
        _ (λ e. record { valid = h.valid; knows = h.knows })
        (λ job e.
          run_calls-IsSound m calls (account_call g clock s job call)
            (account_call-IsSound s job call h))

module _ (g : Genetics) (r : Random) (clock : ℕ → ℕ × String) (fair : IsFair r) where
  popped :
      {q q' : AdaptiveJobQueue r.State} (soft : List String) {job : Option AdaptiveJob}
      → pop r g q soft ≡ some (q', job)
      → IsValid q []
      → IsPopped q q' job
  popped {q} {q'} soft {job} e h =
      let (res, e', p) = pop-Pops g r fair q soft h in
      let same : res ≡ (q', job) = cc (e, e') in subst (λ x. IsPopped q x.0 x.1) same p

  after_pop-IsSound :
      (stopped : Bool) (s : Shared r.State) (w : Worker) (queue : AdaptiveJobQueue r.State)
      (job : Option AdaptiveJob)
      → IsPopped s.queue queue job
      → IsSound s
      → IsSound (after_pop stopped s w queue job).0
  unfolding after_pop
  after_pop-IsSound stopped s w queue none p h = record {
    valid = p.valid;
    knows = λ k e. p.remembers k (h.knows k e);
  }
  after_pop-IsSound stopped s w queue (some job) p h = record {
    valid = p.valid;
    knows = λ k e. p.remembers k (h.knows k e);
  }

  after_batch-IsSound :
      (stopped : Bool) (s : Shared r.State) (w : Worker) (batch : List AdaptiveJob) (after : After)
      (outcome : Option (List TcpTestResult))
      → IsSound s
      → IsSound (after_batch g clock stopped s w batch after outcome).0
  unfolding after_batch
  after_batch-IsSound stopped s w batch after outcome h =
      let calls = run_bridge_batch s.isolation (map bridge_job batch) outcome in
      let k = run_calls-IsSound g clock (by_key batch []) calls.accounts s h in
      if_both {A = Shared r.State × Worker} (λ x. IsSound x.0)
        ((run_calls g clock (by_key batch []) calls.accounts s).1 || calls.raised) _ _
        (record { valid = k.valid; knows = k.knows }) (record { valid = k.valid; knows = k.knows })

  after_single-IsSound :
      (stopped : Bool) (s : Shared r.State) (w : Worker) (job : AdaptiveJob)
      (outcome : Option TcpTestResult)
      → IsSound s
      → IsSound (after_single g clock stopped s w job outcome).0
  unfolding after_single
  after_single-IsSound stopped s w job none h = record { valid = h.valid; knows = h.knows }
  after_single-IsSound stopped s w job (some result) h =
      let k = account-IsSound g clock s job (result_campaign_pass result) result h in
      record { valid = k.valid; knows = k.knows }

  Move-IsSound : (x y : Shared r.State × Worker) → Move g r clock x y → IsSound x.0 → IsSound y.0
  Move-IsSound _ _ (starts s w stopped e) h = h
  Move-IsSound _ _ (pops s w stopped exclude queue job e p) h =
      after_pop-IsSound stopped s w queue job (popped exclude p h.valid) h
  Move-IsSound _ _ (ends_batch s w stopped batch after outcome e) h =
      after_batch-IsSound stopped s w batch after outcome h
  Move-IsSound _ _ (ends_single s w stopped job outcome e) h =
      after_single-IsSound stopped s w job outcome h

  start_worker-IsSound :
      (s : Shared r.State) (bridge_batch : ℤ) → IsSound s → IsSound (start_worker bridge_batch s).0
  unfolding start_worker configure_heap_rebuild
  start_worker-IsSound s bridge_batch h = record {
    valid = record {
      filed = h.valid.filed;
      all_filed = h.valid.all_filed;
      not_finished = h.valid.not_finished;
      covered = h.valid.covered;
      ordered = h.valid.ordered;
    };
    knows = h.knows;
  }

  Run-IsSound : (t u : Team g r clock) → Run g r clock t u → IsSound t.0 → IsSound u.0
  Run-IsSound t u run h = Run-keeps g r clock IsSound Move-IsSound start_worker-IsSound t u run h

  -- What the next `pop` gives a worker: a job that was never accounted, or none if all pending jobs are
  -- on domains that are excluded for good.
  abbrev pub GivesNew : Shared r.State → Option AdaptiveJob → Type 0
  GivesNew s none =
      (k : Key) (job : AdaptiveJob)
      → lookup k s.queue.pending ≡ some job
      → contains s.queue.excluded_domains job.domain ≡ true
  GivesNew s (some job) = contains s.accounted (key job) ≡ false

  new_job :
      (s : Shared r.State) (q : AdaptiveJobQueue r.State) (job : Option AdaptiveJob)
      → IsSound s
      → IsPopped s.queue q job
      → GivesNew s job
  new_job s q none k p = p.none_open
  new_job s q (some job) k p =
      let fresh_key = k.valid.not_finished (key job) (ground (arith, p.opened.0)) in
      elim (Bool-cases (contains s.accounted (key job))) [
        | inl old ↦ absurd (cc (fresh_key, k.knows (key job) old))
        | inr new ↦ new
      ]

  -- After any run of any number of adaptive workers, if `randint(1, 1)` is 1, and if the queue is valid and
  -- knows the accounted keys at the start, `pop` returns, whatever domains it is to avoid. A job that it
  -- returns was not accounted before; it returns none only if every pending job is excluded for good.
  pub Run-GivesNew :
      (t u : Team g r clock) (soft : List String)
      → Run g r clock t u
      → IsSound t.0
      → (q : AdaptiveJobQueue r.State) × (job : Option AdaptiveJob) × (pop r g u.0.queue soft
          ≡ some (q, job))
        × GivesNew u.0 job
  Run-GivesNew t u soft run h =
      let k = Run-IsSound t u run h in
      let (x, e, p) = pop-Pops g r fair u.0.queue soft k.valid in
      (x.0, x.1, e, new_job u.0 x.0 x.1 k p)

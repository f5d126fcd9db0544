-- ===== src/Adaptive/Loads.antt =====
-- What a worker of src/blockchecks/engine/adaptive_runner.py has, through its flushes and pushes.
use blockcheck_s.Prelude.{
  ℕ, ◌+◌, Bool, true, false, not, List, [], ◌∷◌, string_eq, pair_eq, if◌then◌else◌, ◌≡◌, refl, ap,
  arith, if_both, if_split,
}
use blockcheck_s.Prelude.Lists.{is_nil, weigh, weigh-append}
use blockcheck_s.Job.{AdaptiveJob, key}
use blockcheck_s.Queue.{Key}
use blockcheck_s.Batch.{BatchJobAccumulator, push, is_full, flush, can_accept}
use blockcheck_s.Adaptive.{
  Worker, Phase, ready, popping, probing_batch, probing, ended, After, leave, run_single, push_job,
  go_on, check_stop, start_flush, pushed, push_again, resume, flush_then, take_job, left_of,
}

module _ (f : Key → ℕ) where
  -- The sum of a weight over the keys of some jobs: that it is kept for every weight says that no job is
  -- lost or doubled.
  abbrev pub weight_of : List AdaptiveJob → ℕ
  weight_of jobs = weigh (λ job. f (key job)) jobs

  abbrev pub in_phase : Phase → ℕ
  in_phase ready = 0
  in_phase (popping exclude) = 0
  in_phase (probing_batch batch after) = weight_of batch + weight_of (left_of after)
  in_phase (probing job) = f (key job)
  in_phase ended = 0

  -- What a worker has.
  abbrev pub load : Worker → ℕ
  load w = weight_of w.acc.jobs + in_phase w.phase

  push-weight :
      (a : BatchJobAccumulator) (job : AdaptiveJob)
      → weight_of (push a job).0.jobs
        ≡ weight_of a.jobs + (if (push a job).1 then f (key job) else 0)
  unfolding push
  push-weight a job =
      if_both {A = BatchJobAccumulator × Bool}
        (λ r. weight_of r.0.jobs ≡ weight_of a.jobs + (if r.1 then f (key job) else 0))
        (not (can_accept a job)) _ _ (omega arith)
        (omega (arith, weigh-append (λ j. f (key j)) a.jobs (job ∷ [])))

  pub check_stop-load :
      (stopped : Bool) (w : Worker) → load (check_stop stopped w) ≡ weight_of w.acc.jobs
  check_stop-load true w = omega arith
  check_stop-load false w = omega arith

  flushed-load :
      (after : After) (k other : Worker) (jobs : List AdaptiveJob)
      → k.acc.jobs ≡ []
      → load other ≡ weight_of (left_of after)
      → load (if is_nil jobs then other else record k { phase = probing_batch jobs after })
        ≡ weight_of jobs + weight_of (left_of after)
  flushed-load after k other [] e h = omega (arith, h)
  flushed-load after k other (job ∷ jobs) e h = omega (arith, ap weight_of e)

  start_flush-load :
      (after : After) (other : Worker → Worker) (w : Worker)
      → ((k : Worker) → k.acc.jobs ≡ [] → load (other k) ≡ weight_of (left_of after))
      → load (start_flush after other w) ≡ weight_of w.acc.jobs + weight_of (left_of after)
  unfolding start_flush flush
  start_flush-load after other w h =
      let emptied : Worker = record w { acc = record w.acc { jobs = []; keys = [] } } in
      flushed-load after emptied (other emptied) w.acc.jobs refl (h emptied refl)

  pushed-load : (stopped : Bool) (w : Worker) → load (pushed stopped w) ≡ weight_of w.acc.jobs
  unfolding pushed
  pushed-load stopped w =
      if_both {A = Worker} (λ k. load k ≡ weight_of w.acc.jobs) (is_full w.acc) _
        (check_stop stopped w)
        (omega (
          arith,
          start_flush-load go_on (check_stop stopped) w
              (λ k e. ground (arith, check_stop-load stopped k, e)),
        ))
        (check_stop-load stopped w)

  push_again-load :
      (stopped : Bool) (job : AdaptiveJob) (w : Worker)
      → load (push_again stopped job w) ≡ weight_of w.acc.jobs + f (key job)
  unfolding push_again
  push_again-load stopped job w =
      let more : Worker = record w { acc = (push w.acc job).0 } in
      if_split {A = Worker} (λ k. load k ≡ weight_of w.acc.jobs + f (key job)) (push w.acc job).1 _
        _ (λ e. ground (arith, pushed-load stopped more, push-weight w.acc job, e))
        (λ e. omega arith)

  pub resume-load :
      (stopped : Bool) (after : After) (w : Worker)
      → load (resume stopped after w) ≡ weight_of w.acc.jobs + weight_of (left_of after)
  unfolding resume
  resume-load stopped leave w = omega arith
  resume-load stopped (run_single job) w = omega arith
  resume-load stopped (push_job job) w = omega (arith, push_again-load stopped job w)
  resume-load stopped go_on w = omega (arith, check_stop-load stopped w)

  pub flush_then-load :
      (stopped : Bool) (after : After) (w : Worker)
      → load (flush_then stopped after w) ≡ weight_of w.acc.jobs + weight_of (left_of after)
  unfolding flush_then
  flush_then-load stopped after w =
      start_flush-load after (resume stopped after) w
        (λ k e. ground (arith, resume-load stopped after k, e))

  pub take_job-load :
      (stopped : Bool) (job : AdaptiveJob) (w : Worker)
      → load (take_job stopped job w) ≡ weight_of w.acc.jobs + f (key job)
  unfolding take_job
  take_job-load stopped job w =
      let more : Worker = record w { acc = (push w.acc job).0 } in
      if_both {A = Worker} (λ k. load k ≡ weight_of w.acc.jobs + f (key job)) job.fanout _ _
        (omega (arith, flush_then-load stopped (run_single job) w))
        (if_split {A = Worker} (λ k. load k ≡ weight_of w.acc.jobs + f (key job)) (push w.acc job).1
          _ _ (λ e. ground (arith, pushed-load stopped more, push-weight w.acc job, e))
          (λ e. omega (arith, flush_then-load stopped (push_job job) w)))

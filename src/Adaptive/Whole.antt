-- ===== src/Adaptive/Whole.antt =====
-- Whole runs of `run_adaptive_tcp_bridge` of src/blockchecks/engine/adaptive_runner.py, from its start on.
use blockcheck_s.Prelude.{ℕ, Bool, String, Option, some, List, [], pair_eq, ◌≡◌, refl, arith}
use blockcheck_s.Prelude.Dict.{contains}
use blockcheck_s.Job.{AdaptiveJob}
use blockcheck_s.Quarantine.{DomainQuarantine}
use blockcheck_s.Queue.{Genetics, Random, AdaptiveJobQueue}
use blockcheck_s.Queue.Pop.{pop}
use blockcheck_s.Queue.Invariant.{IsValid}
use blockcheck_s.Queue.Exploring.{IsFair}
use blockcheck_s.Adaptive.{start_run}
use blockcheck_s.Adaptive.Steps.{Team, Run}
use blockcheck_s.Adaptive.Counting.{IsCounted, Run-IsCounted}
use blockcheck_s.Adaptive.Keeping.{IsTraced, Run-IsTraced}
use blockcheck_s.Adaptive.Queueing.{GivesNew, Run-GivesNew}

module _ (g : Genetics) (r : Random) (clock : ℕ → ℕ × String) (q : AdaptiveJobQueue r.State)
    (isolate : Bool) (quarantine : Option DomainQuarantine) where
  -- The run starts without workers; they begin one by one.
  abbrev pub first_team : Team g r clock
  first_team = (start_run q isolate quarantine, [])

  -- In any run of any number of adaptive workers no job popped is lost or doubled unseen: for every weight
  -- of the keys, the sum over the jobs popped is that over the jobs accounted, those dropped by an
  -- exception and those that the workers have.
  pub start_run-IsTraced : (u : Team g r clock) → Run g r clock first_team u → IsTraced g r clock u
  unfolding start_run
  start_run-IsTraced u run = Run-IsTraced g r clock first_team u run (λ f. omega arith)

  -- In any run of any number of adaptive workers the metrics of the queue grow by the jobs done and by
  -- those passed, as the workers count them; as many keys are accounted as jobs are done; and those passed
  -- and those skipped are together at most the jobs done.
  pub start_run-IsCounted :
      (u : Team g r clock)
      → Run g r clock first_team u
      → IsCounted q.metrics.jobs_run q.metrics.jobs_passed u.0
  unfolding start_run
  start_run-IsCounted u run =
      Run-IsCounted g r clock q.metrics.jobs_run q.metrics.jobs_passed first_team u run (record {
        metrics = record { run_is = omega arith; passed_is = omega arith };
        each = refl;
        at_most = omega arith;
      })

  -- After any run of any number of adaptive workers on a valid queue, and if `randint(1, 1)` is 1, `pop`
  -- returns, whatever domains it is to avoid. A job that it returns was not accounted before; it returns
  -- none only if every pending job is excluded for good.
  pub start_run-GivesNew :
      (fair : IsFair r) (u : Team g r clock) (soft : List String)
      → Run g r clock first_team u
      → IsValid q []
      → (after : AdaptiveJobQueue r.State) × (job : Option AdaptiveJob) × (pop r g u.0.queue soft
          ≡ some (after, job))
        × GivesNew g r clock fair u.0 job
  unfolding start_run contains
  start_run-GivesNew fair u soft run valid =
      Run-GivesNew g r clock fair first_team u soft run
        (record { valid = valid; knows = λ k e. absurd (cc e) })

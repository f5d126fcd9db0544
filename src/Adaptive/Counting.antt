-- ===== src/Adaptive/Counting.antt =====
-- The counters of src/blockchecks/engine/adaptive_runner.py and the metrics of its queue.
use mathlib.Core.Path.{subst}
use blockcheck_s.Prelude.{
  ℕ, ◌+◌, ◌≤◌, Bool, false, ◌||◌, String, Option, none, some, List, [], ◌∷◌, string_eq, pair_eq,
  ◌≡◌, arith, if_both, option_split, map,
}
use blockcheck_s.Prelude.Lists.{length, length-append}
use blockcheck_s.Prelude.Dict.{lookup}
use blockcheck_s.Job.{AdaptiveJob, key}
use blockcheck_s.Queue.{Genetics, Random, Key, AdaptiveJobQueue}
use blockcheck_s.Queue.Metrics.{Counts, mark_done-Counts, pop-Counts, ResultCounts}
use blockcheck_s.Bridge.{
  TcpTestResult, Account, account_ok, account_skipped, result_campaign_pass, run_bridge_batch,
}
use blockcheck_s.Adaptive.{
  Shared, Worker, After, account, account_as_skipped, account_call, run_calls, after_pop,
  after_batch, after_single, by_key, bridge_job, bridge_job_of, bridge_key,
}
use blockcheck_s.Adaptive.Steps.{Team, Move, starts, pops, ends_batch, ends_single, Run, Run-keeps}
use blockcheck_s.Prelude.Int.{ℤ}
use blockcheck_s.Adaptive.{start_worker}
use blockcheck_s.Queue.{configure_heap_rebuild}

module _ {S : Type 0} (run passed : ℕ) where
  -- The counters of the workers agree with the metrics, which started at `run` and `passed`.
  pub record IsCounted (s : Shared S) : Type 0 where
    pub metrics : Counts (run + s.stats.done) (passed + s.stats.passed) s.queue
    pub each : length s.accounted ≡ s.stats.done
    pub at_most : s.stats.passed + s.stats.skipped ≤ s.stats.done

module _ {S : Type 0} (g : Genetics) (clock : ℕ → ℕ × String) (run passed : ℕ) where
  abbrev I : Shared S → Type 0
  I s = IsCounted run passed s

  account-IsCounted :
      (s : Shared S) (job : AdaptiveJob) (ok : Bool) (result : TcpTestResult)
      → I s
      → I (account g clock s job ok result)
  unfolding account
  account-IsCounted s job ok result h =
      let k =
        mark_done-Counts g (run + s.stats.done) (passed + s.stats.passed) s.queue
          (clock s.stats.done).0 job ok h.metrics in
      record {
        metrics = record {
          run_is = omega (arith, k.run_is);
          passed_is = ground (arith, k.passed_is);
        };
        each = omega (arith, length-append s.accounted (key job ∷ []), h.each);
        at_most = ground (arith, h.at_most);
      }

  account_as_skipped-IsCounted :
      (s : Shared S) (job : AdaptiveJob) → I s → I (account_as_skipped g clock s job)
  unfolding account_as_skipped
  account_as_skipped-IsCounted s job h =
      let k =
        mark_done-Counts g (run + s.stats.done) (passed + s.stats.passed) s.queue
          (clock s.stats.done).0 job false h.metrics in
      record {
        metrics = record {
          run_is = omega (arith, k.run_is);
          passed_is = omega (arith, k.passed_is);
        };
        each = omega (arith, length-append s.accounted (key job ∷ []), h.each);
        at_most = omega (arith, h.at_most);
      }

  account_call-IsCounted :
      (s : Shared S) (job : AdaptiveJob) (call : Account)
      → I s
      → I (account_call g clock s job call)
  unfolding account_call
  account_call-IsCounted s job (account_ok found ok result) h = account-IsCounted s job ok result h
  account_call-IsCounted s job (account_skipped found) h = account_as_skipped-IsCounted s job h

  run_calls-IsCounted :
      (m : List (Key × AdaptiveJob)) (calls : List Account) (s : Shared S)
      → I s
      → I (run_calls g clock m calls s).0
  unfolding run_calls
  run_calls-IsCounted m [] s h = h
  run_calls-IsCounted m (call ∷ calls) s h =
      option_split {B = Shared S × Bool} (λ x. I x.0) (lookup (bridge_key (bridge_job_of call)) m) _
        _ (λ e. record { metrics = h.metrics; each = h.each; at_most = h.at_most })
        (λ job e.
          run_calls-IsCounted m calls (account_call g clock s job call)
            (account_call-IsCounted s job call h))

module _ (g : Genetics) (r : Random) (clock : ℕ → ℕ × String) (run passed : ℕ) where
  abbrev J : Shared r.State → Type 0
  J s = IsCounted run passed s

  after_pop-IsCounted :
      (stopped : Bool) (s : Shared r.State) (w : Worker) (queue : AdaptiveJobQueue r.State)
      (job : Option AdaptiveJob)
      → J s
      → Counts (run + s.stats.done) (passed + s.stats.passed) queue
      → J (after_pop stopped s w queue job).0
  unfolding after_pop
  after_pop-IsCounted stopped s w queue none h k = record {
    metrics = k;
    each = h.each;
    at_most = h.at_most;
  }
  after_pop-IsCounted stopped s w queue (some job) h k = record {
    metrics = k;
    each = h.each;
    at_most = h.at_most;
  }

  after_batch-IsCounted :
      (stopped : Bool) (s : Shared r.State) (w : Worker) (batch : List AdaptiveJob) (after : After)
      (outcome : Option (List TcpTestResult))
      → J s
      → J (after_batch g clock stopped s w batch after outcome).0
  unfolding after_batch
  after_batch-IsCounted stopped s w batch after outcome h =
      let calls = run_bridge_batch s.isolation (map bridge_job batch) outcome in
      let k = run_calls-IsCounted g clock run passed (by_key batch []) calls.accounts s h in
      if_both {A = Shared r.State × Worker} (λ x. J x.0)
        ((run_calls g clock (by_key batch []) calls.accounts s).1 || calls.raised) _ _
        (record { metrics = k.metrics; each = k.each; at_most = k.at_most })
        (record { metrics = k.metrics; each = k.each; at_most = k.at_most })

  after_single-IsCounted :
      (stopped : Bool) (s : Shared r.State) (w : Worker) (job : AdaptiveJob)
      (outcome : Option TcpTestResult)
      → J s
      → J (after_single g clock stopped s w job outcome).0
  unfolding after_single
  after_single-IsCounted stopped s w job none h = record {
    metrics = h.metrics;
    each = h.each;
    at_most = h.at_most;
  }
  after_single-IsCounted stopped s w job (some result) h =
      let k = account-IsCounted g clock run passed s job (result_campaign_pass result) result h in
      record { metrics = k.metrics; each = k.each; at_most = k.at_most }

  Move-IsCounted : (x y : Shared r.State × Worker) → Move g r clock x y → J x.0 → J y.0
  Move-IsCounted _ _ (starts s w stopped e) h = h
  Move-IsCounted _ _ (pops s w stopped exclude queue job e p) h =
      let k =
        pop-Counts g r (run + s.stats.done) (passed + s.stats.passed) s.queue exclude h.metrics in
      after_pop-IsCounted stopped s w queue job h
        (subst (ResultCounts g (run + s.stats.done) (passed + s.stats.passed)) p k)
  Move-IsCounted _ _ (ends_batch s w stopped batch after outcome e) h =
      after_batch-IsCounted stopped s w batch after outcome h
  Move-IsCounted _ _ (ends_single s w stopped job outcome e) h =
      after_single-IsCounted stopped s w job outcome h

  start_worker-IsCounted :
      (s : Shared r.State) (bridge_batch : ℤ) → J s → J (start_worker bridge_batch s).0
  unfolding start_worker configure_heap_rebuild
  start_worker-IsCounted s bridge_batch h = record {
    metrics = record { run_is = h.metrics.run_is; passed_is = h.metrics.passed_is };
    each = h.each;
    at_most = h.at_most;
  }

  -- The counters agree in any run, if they do at the start.
  pub Run-IsCounted :
      (t u : Team g r clock)
      → Run g r clock t u
      → IsCounted run passed t.0
      → IsCounted run passed u.0
  Run-IsCounted t u steps h =
      Run-keeps g r clock J Move-IsCounted start_worker-IsCounted t u steps h

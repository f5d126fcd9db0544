-- ===== src/Adaptive/Tests.antt =====
-- The workers of src/blockchecks/engine/adaptive_runner.py at small inputs.
use blockcheck_s.Prelude.{
  ℕ, Bool, true, false, String, Option, none, some, List, [], ◌∷◌, eqb, string_eq, pair_eq, ◌≡◌,
  refl, arith,
}
use blockcheck_s.Prelude.Int.{pos}
use blockcheck_s.Prelude.Dict.{lookup, insert, erase, contains, add, discard}
use blockcheck_s.Job.{StrategyItem, AdaptiveJob}
use blockcheck_s.Weights
use blockcheck_s.Weights.{get, get_or, total, raise, raise_all, boost_pass}
use blockcheck_s.Queue.Heap.{entry_before, push_heap, push_all}
use blockcheck_s.Queue.{
  Genetics, Random, AdaptiveJobQueue, maybe_compact_heap, maybe_rebuild_heap, drop_pending, enqueue,
  enqueue_many, entry_stale, job_priority, push_entry, rebuild_heap, rebuilt, refresh,
}
use blockcheck_s.Queue.Pop.{
  pop, draw, pop_loop, discard_job, take_job, visit, round, pop_skipped, reservoir,
  epsilon_pick_key, pop_random,
}
use blockcheck_s.Queue.Results.{
  mark_done, from_item, settle, boost, with_index, fanout_on_pass, fan_out, fan_out_to, others,
  others_in, record_run, set_half_mark, cluster_domain_index, index_from, sibling_domains,
}
use blockcheck_s.Queue.Bulk.{
  build, seeded, new_queue, matrix_jobs, item_jobs, all_skips, item_skips,
}
use blockcheck_s.Queue.Keeps.{build-IsValid}
use blockcheck_s.Batch.{push, is_full, flush, can_accept}
use blockcheck_s.Bridge.{
  TcpTestResult, excluded_snapshot, add_all, run_bridge_batch, pair_results, too_many,
  release_domains, discard_all, account_with_quarantine, campaign_pass,
}
use blockcheck_s.Adaptive.{
  Shared, Worker, ready, popping, probing_batch, probing, ended, go_on, start_round, after_pop,
  after_batch, start_flush, pushed, push_again, resume, flush_then, by_key, account,
  account_as_skipped, account_call, run_calls,
}
use blockcheck_s.Adaptive
use blockcheck_s.Weights.Bounds.{IsBounded}
use blockcheck_s.Triage.{TriageProfile}
use blockcheck_s.Adaptive.Start.{PassRow, build_adaptive_queue, start_weights}
use blockcheck_s.Adaptive.Ready.{IsReady, build_adaptive_queue-IsReady}
use blockcheck_s.Adaptive.Bounds.{start_weights-IsBounded}
use blockcheck_s.Adaptive.Steps.{Team, starts, pops, moves, begins, Run, here, next}
use blockcheck_s.Adaptive.Counting.{IsCounted}
use blockcheck_s.Adaptive.Keeping.{IsTraced}
use blockcheck_s.Adaptive.Queueing.{GivesNew}
use blockcheck_s.Adaptive.Whole.{
  first_team, start_run-IsTraced, start_run-IsCounted, start_run-GivesNew,
}
use blockcheck_s.Queue.Invariant.{IsValid}
use blockcheck_s.Queue.{configure_heap_rebuild}
use blockcheck_s.Batch.{accumulator}
use blockcheck_s.Adaptive.{start_run, start_worker}

abbrev genetics : Genetics
genetics = record {
  family = λ item. item.protocol;
  blobs = λ s. [];
  traits = λ s. [];
  cluster = λ d. "one";
}

abbrev random : Random
random = record { State = ℕ; explore = λ epsilon s. (false, s); one_in = λ n s. (eqb n 1, s) }

abbrev clock : ℕ → ℕ × String
clock n = (n, "t")

abbrev item : StrategyItem
item = record { label = "fake"; strategy = "fake"; is_config = false; protocol = "tls12" }

abbrev domains : List String
domains = "a.com" ∷ "b.com" ∷ []

abbrev queue : AdaptiveJobQueue ℕ
queue = build genetics [] [] (item ∷ []) domains Weights.fresh (pos 0) 0 0

abbrev start : Bool → Shared ℕ
start isolate = record {
  queue = queue;
  isolation = record { enabled = isolate; active_domains = [] };
  quarantine = none;
  stats = record { done = 0; skipped = 0; passed = 0 };
  popped = [];
  accounted = [];
  dropped = [];
}

abbrev worker : ℕ → Worker
worker n = record { acc = record { batch_size = n; jobs = []; keys = [] }; phase = ready }

-- A round up to the next await; the stop event is set, or not, after the pop.
abbrev popped : Bool → Shared ℕ × Worker → Shared ℕ × Worker
popped stopped (s, w) =
    let asking = start_round false s w in
    elim asking.phase [
      | popping exclude ↦ elim (pop random genetics s.queue exclude) [
        | none ↦ (s, asking)
        | some r ↦ after_pop stopped s asking r.0 r.1
      ]
      | ready ↦ (s, asking)
      | probing_batch batch after ↦ (s, asking)
      | probing job ↦ (s, asking)
      | ended ↦ (s, asking)
    ]

abbrev passes : TcpTestResult
passes = record { success = true; bridge_applied = some true; fail_phase = ""; error = "" }

abbrev on_a : AdaptiveJob
on_a = record { item = item; domain = "a.com"; family = "tls12"; fanout = false }

-- Two workers have the strategy on the two domains; it passes on the first, whose worker goes on.
abbrev first_done : Shared ℕ × Worker
first_done =
    let (s, w) = popped false (start true, worker 1) in
    let (s', other) = popped false (s, worker 1) in
    after_batch genetics clock false s' w (on_a ∷ []) go_on (some (passes ∷ []))

-- Three runs. The fan-out puts a job that is in flight back into the queue, and it is popped a second
-- time. The stop event is set while a worker awaits its job: it ends with what it has gathered,
-- which is neither probed nor accounted. With the isolation off, a domain that was popped is never free
-- again, and the next pops avoid it.
three_runs :
    ((popped false first_done).0.popped
      ≡ ("fake", "a.com") ∷ ("fake", "b.com") ∷ ("fake", "b.com") ∷ [])
    × (let (s, w) = popped true (start true, worker 2) in
        (w.phase ≡ ended)
        × (w.acc.jobs ≡ on_a ∷ [])
        × (s.popped ≡ ("fake", "a.com") ∷ [])
        × (s.accounted ≡ []))
    × (let (s, w) = popped false (start false, worker 1) in
        (after_batch genetics clock false s w
          (on_a ∷ [])
          go_on
          (some (passes ∷ []))).0.isolation.active_domains
        ≡ "a.com" ∷ [])
unfolding pop draw pop_loop mark_done maybe_compact_heap maybe_rebuild_heap settle boost
    drop_pending lookup build enqueue_many matrix_jobs item_jobs contains enqueue seeded new_queue
    all_skips item_skips add from_item discard erase insert entry_before push_all push_heap
    discard_job epsilon_pick_key pop_random pop_skipped reservoir round take_job visit record_run
    set_half_mark cluster_domain_index index_from entry_stale job_priority push_entry rebuild_heap
    rebuilt refresh get get_or total raise raise_all boost_pass with_index fanout_on_pass fan_out
    fan_out_to sibling_domains others others_in push is_full flush can_accept excluded_snapshot
    add_all run_bridge_batch pair_results too_many release_domains discard_all
    account_with_quarantine campaign_pass start_round after_pop after_batch start_flush pushed
    push_again resume flush_then by_key account account_as_skipped account_call run_calls
    Adaptive.take_job
three_runs = (refl, (refl, refl, refl, refl), refl)

-- A run of one worker: it begins, asks for a job and gets the one on the first domain.
abbrev team : Team genetics random clock
team = first_team genetics random clock queue true none

abbrev begun : Shared ℕ × Worker
begun = start_worker (pos 2) team.0

abbrev asking : Worker
asking = start_round false begun.0 begun.1

abbrev left : AdaptiveJobQueue ℕ
left = elim (pop random genetics begun.0.queue []) [ none ↦ queue | some r ↦ r.0 ]

-- What the worker does at the start.
first_facts :
    (begun.1.phase ≡ ready)
    × (asking.phase ≡ popping [])
    × (pop random genetics begun.0.queue [] ≡ some (left, some on_a))
unfolding pop draw pop_loop mark_done maybe_compact_heap maybe_rebuild_heap settle boost
    drop_pending lookup build enqueue_many matrix_jobs item_jobs contains enqueue seeded new_queue
    all_skips item_skips add from_item discard erase insert entry_before push_all push_heap
    discard_job epsilon_pick_key pop_random pop_skipped reservoir round take_job visit record_run
    set_half_mark cluster_domain_index index_from entry_stale job_priority push_entry rebuild_heap
    rebuilt refresh get get_or total raise raise_all boost_pass with_index fanout_on_pass fan_out
    fan_out_to sibling_domains others others_in push is_full flush can_accept excluded_snapshot
    add_all run_bridge_batch pair_results too_many release_domains discard_all
    account_with_quarantine campaign_pass start_round after_pop after_batch start_flush pushed
    push_again resume flush_then by_key account account_as_skipped account_call run_calls
    Adaptive.take_job start_run start_worker configure_heap_rebuild accumulator
first_facts = (refl, refl, refl)

abbrev given : Team genetics random clock
given = let (s, w) = after_pop false begun.0 asking left (some on_a) in (s, w ∷ [])

abbrev first_run : Run genetics random clock team given
first_run =
    next team (begun.0, begun.1 ∷ []) given (begins team.0 [] (pos 2))
      (next (begun.0, begun.1 ∷ []) (begun.0, asking ∷ []) given
        (moves _ _ [] [] (starts begun.0 begun.1 false first_facts.0))
        (next (begun.0, asking ∷ []) given given
          (moves _ _ [] []
            (pops begun.0 asking false [] left (some on_a) first_facts.1 first_facts.2))
          (here given)))

start_run-IsTraced_example : IsTraced genetics random clock given
start_run-IsTraced_example =
    start_run-IsTraced genetics random clock queue true none given first_run

start_run-IsCounted_example : IsCounted queue.metrics.jobs_run queue.metrics.jobs_passed given.0
start_run-IsCounted_example =
    start_run-IsCounted genetics random clock queue true none given first_run

abbrev queue_valid : IsValid queue []
queue_valid = build-IsValid genetics [] [] (item ∷ []) domains Weights.fresh (pos 0) 0 0

start_run-GivesNew_example :
    (after : AdaptiveJobQueue ℕ) × (job : Option AdaptiveJob) × (pop random genetics given.0.queue
        ("a.com" ∷ [])
      ≡ some (after, job))
    × GivesNew genetics random clock (λ s. refl) given.0 job
start_run-GivesNew_example =
    start_run-GivesNew genetics random clock queue true none (λ s. refl) given ("a.com" ∷ [])
      first_run queue_valid

abbrev no_triage : Option (TriageProfile String)
no_triage = none

abbrev stored : List (String × ℕ)
stored = ("family:tls12", 640) ∷ []

abbrev passed_on_a : List PassRow
passed_on_a = record { domain = "A.com"; strategy = "fake" } ∷ []

build_adaptive_queue-IsReady_example :
    IsReady {S = ℕ} []
      (("fake", "a.com") ∷ [])
      (build_adaptive_queue genetics
        (item ∷ [])
        domains
        stored
        passed_on_a
        no_triage
        none
        (("fake", "a.com") ∷ [])
        (some (λ j. false))
        (pos 100)
        0
        0).0
build_adaptive_queue-IsReady_example =
    build_adaptive_queue-IsReady genetics (item ∷ []) domains stored passed_on_a no_triage none
      (("fake", "a.com") ∷ []) (some (λ j. false)) (pos 100) 0 0

start_weights-IsBounded_example :
    IsBounded (start_weights genetics stored passed_on_a no_triage domains)
start_weights-IsBounded_example =
    start_weights-IsBounded genetics stored passed_on_a no_triage domains (omega arith, tt)

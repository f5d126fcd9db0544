-- ===== src/Adaptive.antt =====
-- src/blockchecks/engine/adaptive_runner.py: workers that take jobs from the adaptive queue, gather them in
-- an accumulator and probe them in batches. A worker stands between two awaits in one of the phases below;
-- the callbacks of one batch are taken as one step, and so is the return of a single probe. What the
-- runner's probes return is an argument, `none` where it raises; `clock n` is the time at which the n-th
-- job is accounted. The reports of the progress and the database of the quarantine are left out.
pub mod Start
pub mod Bounds
pub mod Ready
pub mod Steps
pub mod Counting
pub mod Loads
pub mod Calls
pub mod Keeping
pub mod Queueing
pub mod Whole
mod Tests
use blockcheck_s.Prelude.{
  ℕ, suc, ◌+◌, Bool, true, false, ◌||◌, String, Option, none, some, List, [], ◌∷◌, ◌++◌, map,
  string_eq, pair_eq, if◌then◌else◌,
}
use blockcheck_s.Prelude.Lists.{is_nil}
use blockcheck_s.Prelude.Dict.{lookup, insert, add}
use blockcheck_s.Job.{AdaptiveJob, key}
use blockcheck_s.Queue.{Genetics, Key, AdaptiveJobQueue, configure_heap_rebuild}
use blockcheck_s.Prelude.Int.{ℤ}
use blockcheck_s.Queue.Results.{mark_done}
use blockcheck_s.Quarantine.{DomainQuarantine, exclude_domains}
use blockcheck_s.Batch.{BatchJobAccumulator, push, is_full}
use blockcheck_s.Batch
use blockcheck_s.Bridge.{
  BridgeJob, TcpTestResult, DomainIsolationPool, Account, account_ok, account_skipped,
  result_campaign_pass, release_domains, excluded_snapshot, run_bridge_batch,
  account_with_quarantine,
}

-- `_RunStats`
pub record RunStats : Type 0 where
  pub done : ℕ
  pub skipped : ℕ
  pub passed : ℕ

-- What the workers share. `excluded_domains` of the pool is the set of the queue. The last three record
-- the run: the keys of the jobs popped, of those accounted, and of those dropped by an exception.
pub record Shared (S : Type 0) : Type 0 where
  pub queue : AdaptiveJobQueue S
  pub isolation : DomainIsolationPool
  pub quarantine : Option DomainQuarantine
  pub stats : RunStats
  pub popped : List Key
  pub accounted : List Key
  pub dropped : List Key

-- What a worker does after a flush.
pub data After : Type 0 where
  leave : After
  run_single : AdaptiveJob → After
  push_job : AdaptiveJob → After
  go_on : After

-- At the top of the loop, before the pop with the domains to avoid, in the probe of a batch or of one
-- job, or at the end.
pub data Phase : Type 0 where
  ready : Phase
  popping : List String → Phase
  probing_batch : List AdaptiveJob → After → Phase
  probing : AdaptiveJob → Phase
  ended : Phase

pub record Worker : Type 0 where
  pub acc : BatchJobAccumulator
  pub phase : Phase

-- `if stop_event and stop_event.is_set(): return`, at the end of the loop's body.
abbrev pub check_stop : Bool → Worker → Worker
check_stop stopped w = record w { phase = if stopped then ended else ready }

-- `flush` up to the probe of its batch; without jobs it returns at once, and `other` follows.
unfoldable pub start_flush : After → (Worker → Worker) → Worker → Worker
start_flush after other w =
    let (acc, jobs) = Batch.flush w.acc in
    if is_nil jobs
    then other (record w { acc = acc })
    else record w { acc = acc; phase = probing_batch jobs after }

-- The rest of the body after a push.
unfoldable pub pushed : Bool → Worker → Worker
pushed stopped w =
    if is_full w.acc then start_flush go_on (check_stop stopped) w else check_stop stopped w

-- The second push of a job.
unfoldable pub push_again : Bool → AdaptiveJob → Worker → Worker
push_again stopped job w =
    let (acc, accepted) = push w.acc job in
    if accepted then pushed stopped (record w { acc = acc }) else record w { phase = probing job }

unfoldable pub resume : Bool → After → Worker → Worker
resume stopped leave w = record w { phase = ended }
resume stopped (run_single job) w = record w { phase = probing job }
resume stopped (push_job job) w = push_again stopped job w
resume stopped go_on w = check_stop stopped w

unfoldable pub flush_then : Bool → After → Worker → Worker
flush_then stopped after w = start_flush after (resume stopped after) w

-- The body of the loop for the job that was popped.
unfoldable pub take_job : Bool → AdaptiveJob → Worker → Worker
take_job stopped job w =
    let (acc, accepted) = push w.acc job in
    if job.fanout
    then flush_then stopped (run_single job) w
    else if accepted
    then pushed stopped (record w { acc = acc })
    else flush_then stopped (push_job job) w

-- `quarantine.exclude_domains()`, or nothing
abbrev pub extra_of : Option DomainQuarantine → List String
extra_of none = []
extra_of (some q) = exclude_domains q

abbrev pub bridge_job : AdaptiveJob → BridgeJob
bridge_job job = record { item = job.item; domain = job.domain; fanout = job.fanout }

abbrev pub bridge_key : BridgeJob → Key
bridge_key job = (job.item.label, job.domain)

-- `job_by_key`
unfoldable pub by_key : List AdaptiveJob → List (Key × AdaptiveJob) → List (Key × AdaptiveJob)
by_key [] m = m
by_key (job ∷ jobs) m = by_key jobs (insert (key job) job m)

abbrev pub bridge_job_of : Account → BridgeJob
bridge_job_of (account_ok job ok result) = job
bridge_job_of (account_skipped job) = job

-- The job that a worker still has to run when its flush raises.
abbrev pub left_of : After → List AdaptiveJob
left_of leave = []
left_of (run_single job) = job ∷ []
left_of (push_job job) = job ∷ []
left_of go_on = []

module _ {S : Type 0} where
  -- What `run_adaptive_tcp_bridge` sets up before its workers.
  unfoldable pub start_run : AdaptiveJobQueue S → Bool → Option DomainQuarantine → Shared S
  start_run queue isolate quarantine = record {
    queue = queue;
    isolation = record { enabled = isolate; active_domains = extra_of quarantine };
    quarantine = quarantine;
    stats = record { done = 0; skipped = 0; passed = 0 };
    popped = [];
    accounted = [];
    dropped = [];
  }

  -- The first lines of `_bridge_worker`.
  unfoldable pub start_worker : ℤ → Shared S → Shared S × Worker
  start_worker bridge_batch s = (
    record s { queue = configure_heap_rebuild s.queue bridge_batch },
    record { acc = Batch.accumulator bridge_batch; phase = ready },
  )

  -- The top of the loop, up to the domains that `pop_isolated` avoids.
  unfoldable pub start_round : Bool → Shared S → Worker → Worker
  start_round stopped s w =
      if stopped
      then flush_then stopped leave w
      else record w { phase = popping (excluded_snapshot s.isolation (extra_of s.quarantine)) }

  -- The rest of the round, with what `queue.pop` leaves and returns.
  unfoldable pub after_pop :
      Bool → Shared S → Worker → AdaptiveJobQueue S → Option AdaptiveJob → Shared S × Worker
  after_pop stopped s w queue none = (record s { queue = queue }, flush_then stopped leave w)
  after_pop stopped s w queue (some job) = (
    record s {
      queue = queue;
      isolation = record s.isolation { active_domains = add job.domain s.isolation.active_domains };
      popped = s.popped ++ key job ∷ [];
    },
    take_job stopped job w,
  )

module _ {S : Type 0} (g : Genetics) (clock : ℕ → ℕ × String) where
  -- `_account`
  unfoldable pub account : Shared S → AdaptiveJob → Bool → TcpTestResult → Shared S
  account s job ok result =
      let (now, text) = clock s.stats.done in
      let marked = (mark_done g s.queue now job ok).0 in
      let (quarantine, excluded) =
        account_with_quarantine (s.quarantine, marked.excluded_domains) text (bridge_job job) ok
          result in
      record s {
        queue = record marked { excluded_domains = excluded };
        quarantine = quarantine;
        stats = record s.stats {
          done = s.stats.done + 1;
          passed = if ok then s.stats.passed + 1 else s.stats.passed;
        };
        accounted = s.accounted ++ key job ∷ [];
      }

  -- `_account_skipped`
  unfoldable pub account_as_skipped : Shared S → AdaptiveJob → Shared S
  account_as_skipped s job =
      let (now, text) = clock s.stats.done in
      record s {
        queue = (mark_done g s.queue now job false).0;
        stats = record s.stats { done = s.stats.done + 1; skipped = s.stats.skipped + 1 };
        accounted = s.accounted ++ key job ∷ [];
      }

  -- One callback, for the job that `job_by_key` finds.
  unfoldable pub account_call : Shared S → AdaptiveJob → Account → Shared S
  account_call s job (account_ok found ok result) = account s job ok result
  account_call s job (account_skipped found) = account_as_skipped s job

  -- The callbacks of a batch, and whether one raises a KeyError.
  unfoldable pub run_calls : List (Key × AdaptiveJob) → List Account → Shared S → Shared S × Bool
  run_calls m [] s = (s, false)
  run_calls m (call ∷ calls) s = elim (lookup (bridge_key (bridge_job_of call)) m) [
    | none ↦ (
      record s {
        dropped = s.dropped ++ map {B = Key} (λ c. bridge_key (bridge_job_of c)) (call ∷ calls);
      },
      true,
    )
    | some job ↦ run_calls m calls (account_call s job call)
  ]

  -- The end of a batch.
  unfoldable pub after_batch :
      Bool
      → Shared S
      → Worker
      → List AdaptiveJob
      → After
      → Option (List TcpTestResult)
      → Shared S × Worker
  after_batch stopped s w batch after outcome =
      let run = run_bridge_batch s.isolation (map bridge_job batch) outcome in
      let (s', unknown) = run_calls (by_key batch []) run.accounts s in
      let lost : List AdaptiveJob = elim outcome [ none ↦ batch | some rs ↦ [] ] in
      if unknown || run.raised
      then (
        record s' {
          isolation = run.isolation;
          dropped = s'.dropped ++ map {B = Key} key (lost ++ left_of after);
        },
        record w { phase = ended },
      )
      else (record s' { isolation = run.isolation }, resume stopped after w)

  -- The end of `run_single`.
  unfoldable pub after_single :
      Bool → Shared S → Worker → AdaptiveJob → Option TcpTestResult → Shared S × Worker
  after_single stopped s w job none = (
    record s {
      isolation = release_domains s.isolation (job.domain ∷ []);
      dropped = s.dropped ++ key job ∷ [];
    },
    record w { phase = ended },
  )
  after_single stopped s w job (some result) =
      let s' = account s job (result_campaign_pass result) result in
      (
        record s' { isolation = release_domains s'.isolation (job.domain ∷ []) },
        check_stop stopped w,
      )

-- ===== src/Bridge.antt =====
-- src/blockchecks/engine/bridge_worker_pool.py: workers that share a set of active domains and probe in
-- batches. `campaign_pass` and `TcpTestResult` are those of src/blockchecks/engine/results.py; of a
-- result the fields are kept that the workers read. What the runner's `_run_probe_batch` returns is an
-- argument, `none` where it raises. The database and the denylist of `persist_quarantine` are left out.
pub mod Pairing
pub mod Exclusion
pub mod Workers
pub mod Runs
mod Tests
use blockcheck_s.Prelude.{
  ℕ, Bool, true, false, ◌&&◌, not, String, Option, none, some, List, [], ◌∷◌, ◌++◌, map, string_eq,
  leb, ◌==◌, if◌then◌else◌,
}
use blockcheck_s.Prelude.Lists.{length, is_nil}
use blockcheck_s.Prelude.Dict.{contains, add, discard}
use blockcheck_s.Job.{StrategyItem}
use blockcheck_s.Quarantine.{DomainQuarantine, Probe, record_probe}

pub record BridgeJob : Type 0 where
  pub item : StrategyItem
  pub domain : String
  pub fanout : Bool

pub record TcpTestResult : Type 0 where
  pub success : Bool
  pub bridge_applied : Option Bool
  pub fail_phase : String
  pub error : String

unfoldable pub campaign_pass : Bool → Option Bool → Bool
campaign_pass http_ok none = http_ok
campaign_pass http_ok (some true) = http_ok
campaign_pass http_ok (some false) = false

-- `result_campaign_pass` of a `TcpTestResult`
abbrev pub result_campaign_pass : TcpTestResult → Bool
result_campaign_pass r = campaign_pass r.success r.bridge_applied

pub record DomainIsolationPool : Type 0 where
  pub enabled : Bool
  pub active_domains : List String

unfoldable pub claim_domain : DomainIsolationPool → String → DomainIsolationPool × Bool
claim_domain p domain =
    if not p.enabled
    then (p, true)
    else if contains p.active_domains domain
    then (p, false)
    else (record p { active_domains = add domain p.active_domains }, true)

-- `s.difference_update(ds)`
unfoldable pub discard_all : List String → List String → List String
discard_all [] s = s
discard_all (d ∷ ds) s = discard_all ds (discard d s)

unfoldable pub release_domains : DomainIsolationPool → List String → DomainIsolationPool
release_domains p domains =
    if not p.enabled
    then p
    else if is_nil domains
    then p
    else record p { active_domains = discard_all domains p.active_domains }

unfoldable pub add_all : List String → List String → List String
add_all [] s = s
add_all (d ∷ ds) s = add_all ds (add d s)

-- `excluded_snapshot`, with the empty list for no extras
unfoldable pub excluded_snapshot : DomainIsolationPool → List String → List String
excluded_snapshot p extra = add_all extra p.active_domains

-- A call of one of the two callbacks.
pub data Account : Type 0 where
  account_ok : BridgeJob → Bool → TcpTestResult → Account
  account_skipped : BridgeJob → Account

abbrev pub stopped_before_probe : String
stopped_before_probe = "stopped before probe"

-- The loop over the jobs and the results: a job without a result was stopped before its probe.
unfoldable pub pair_results : List BridgeJob → List TcpTestResult → List Account
pair_results [] rs = []
pair_results (job ∷ jobs) [] = account_skipped job ∷ pair_results jobs []
pair_results (job ∷ jobs) (r ∷ rs) =
    let rest = pair_results jobs rs in
    if r.error == stopped_before_probe
    then account_skipped job ∷ rest
    else account_ok job (result_campaign_pass r) r ∷ rest

-- More results than jobs: the strict `zip` raises after its last pair.
unfoldable pub too_many : List BridgeJob → List TcpTestResult → Bool
too_many [] [] = false
too_many [] (r ∷ rs) = true
too_many (job ∷ jobs) [] = false
too_many (job ∷ jobs) (r ∷ rs) = too_many jobs rs

pub record BatchRun : Type 0 where
  pub accounts : List Account
  pub isolation : DomainIsolationPool
  pub raised : Bool

-- `run_bridge_batch`
unfoldable pub run_bridge_batch :
    DomainIsolationPool → List BridgeJob → Option (List TcpTestResult) → BatchRun
run_bridge_batch p [] outcome = record { accounts = []; isolation = p; raised = false }
run_bridge_batch p (job ∷ jobs) outcome =
    let freed = release_domains p (map (λ (j : BridgeJob). j.domain) (job ∷ jobs)) in
    elim outcome [
      | none ↦ record { accounts = []; isolation = freed; raised = true }
      | some rs ↦ record {
        accounts = pair_results (job ∷ jobs) rs;
        isolation = freed;
        raised = too_many (job ∷ jobs) rs;
      }
    ]

-- `record_quarantine_hit`: the tracker, and the excluded domains that the queue reads. The test
-- `not newly` holds of None and of the empty domain.
unfoldable pub record_quarantine_hit :
    DomainQuarantine → List String → Probe → DomainQuarantine × List String
record_quarantine_hit q excluded p =
    let (q', newly) = record_probe q p in
    elim newly [
      | none ↦ (q', excluded)
      | some d ↦ if d == "" then (q', excluded) else (q', add d excluded)
    ]

-- What `account_with_quarantine` passes on, at the time `now`.
abbrev pub probe_of : String → BridgeJob → Bool → TcpTestResult → Probe
probe_of now job ok r = record {
  now = now;
  domain = job.domain;
  passed = ok;
  status = none;
  fail_phase = r.fail_phase;
  error = r.error;
}

unfoldable pub account_with_quarantine :
    Option DomainQuarantine × List String
    → String
    → BridgeJob
    → Bool
    → TcpTestResult
    → Option DomainQuarantine × List String
account_with_quarantine (none, excluded) now job ok r = (none, excluded)
account_with_quarantine (some q, excluded) now job ok r =
    let (q', excluded') = record_quarantine_hit q excluded (probe_of now job ok r) in
    (some q', excluded')

-- What the workers of `run_queue_bridge_worker` share. `dropped` are the jobs of a batch whose probe
-- raised: no callback is made for them.
pub record World : Type 0 where
  pub isolation : DomainIsolationPool
  pub queue : List BridgeJob
  pub excluded_domains : List String
  pub accounts : List Account
  pub dropped : List BridgeJob

-- A worker: the jobs it has gathered, the batch it waits for, and whether its task has ended.
pub record Worker : Type 0 where
  pub acc : List BridgeJob
  pub busy : List BridgeJob
  pub ended : Bool

-- `flush` up to the probe of the batch
unfoldable pub start_flush : Worker → Worker
start_flush w = if is_nil w.acc then w else record w { acc = []; busy = w.acc }

-- `acc.append((item, dom))`, and the flush of a full batch
unfoldable pub gather : ℕ → Worker → BridgeJob → Worker
unfolding start_flush
gather batch_size w job =
    let w' : Worker = record w { acc = w.acc ++ job ∷ [] } in
    if leb batch_size (length w'.acc) then start_flush w' else w'

-- The rest of a round for a job that the worker took from the queue.
unfoldable pub take_job : ℕ → World → Worker → BridgeJob → List BridgeJob → World × Worker
take_job batch_size s w job rest =
    let (isolation, claimed) = claim_domain s.isolation job.domain in
    if contains s.excluded_domains job.domain
    then (record s { queue = rest; accounts = s.accounts ++ account_skipped job ∷ [] }, w)
    else if not claimed
    then (record s { queue = rest ++ job ∷ [] }, start_flush w)
    else (record s { queue = rest; isolation = isolation }, gather batch_size w job)

-- One round of `while True`, with the state of the stop event.
unfoldable pub worker_round : Bool → ℕ → World → Worker → World × Worker
worker_round stopped batch_size s w =
    let ended_worker = record (start_flush w) { ended = true } in
    if stopped
    then (s, ended_worker)
    else elim s.queue [ [] ↦ (s, ended_worker) | job ∷ rest ↦ take_job batch_size s w job rest ]

-- The end of a batch: the worker goes on, unless the probe raised.
unfoldable pub finish_flush : World → Worker → Option (List TcpTestResult) → World × Worker
unfolding run_bridge_batch
finish_flush s w outcome =
    let run = run_bridge_batch s.isolation w.busy outcome in
    (
      record s {
        isolation = run.isolation;
        accounts = s.accounts ++ run.accounts;
        dropped = elim outcome [ none ↦ s.dropped ++ w.busy | some rs ↦ s.dropped ];
      },
      record w { busy = []; ended = if run.raised then true else w.ended },
    )

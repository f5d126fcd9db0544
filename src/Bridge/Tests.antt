-- ===== src/Bridge/Tests.antt =====
-- The workers of src/blockchecks/engine/bridge_worker_pool.py at small inputs.
use blockcheck_s.Prelude.{
  true, false, String, none, some, List, [], ◌∷◌, string_eq, ◌≡◌, refl, arith,
}
use blockcheck_s.Prelude.Dict.{lookup, contains}
use blockcheck_s.Quarantine.{DomainQuarantine, Probe, fresh}
use blockcheck_s.Bridge.{
  BridgeJob, TcpTestResult, DomainIsolationPool, World, Worker, worker_round, probe_of,
}
use blockcheck_s.Bridge.Pairing.{IsBatchRun, run_bridge_batch_lem}
use blockcheck_s.Bridge.Exclusion.{record_hits, InStep, record_hits-InStep}
use blockcheck_s.Bridge.Runs.{
  Team, rounds, Run, here, next, jobs_in, IsIsolated, Run-jobs_in, Run-IsIsolated,
}

abbrev job : String → String → BridgeJob
job label domain = record {
  item = record { label = label; strategy = label; is_config = false; protocol = "tls12" };
  domain = domain;
  fanout = false;
}

abbrev passed : TcpTestResult
passed = record { success = true; bridge_applied = some true; fail_phase = ""; error = "" }

abbrev pool : List String → DomainIsolationPool
pool ds = record { enabled = true; active_domains = ds }

-- Two results for three jobs.
run_bridge_batch_lem_example :
    IsBatchRun
      (pool ("a.com" ∷ "b.com" ∷ []))
      (job "x" "a.com" ∷ job "y" "b.com" ∷ [])
      (some (passed ∷ []))
run_bridge_batch_lem_example =
    run_bridge_batch_lem (pool ("a.com" ∷ "b.com" ∷ [])) (job "x" "a.com" ∷ job "y" "b.com" ∷ [])
      (some (passed ∷ []))

abbrev failed : TcpTestResult
failed = record {
  success = false;
  bridge_applied = none;
  fail_phase = "tls_rst_at_sni";
  error = "reset";
}

abbrev tracker : DomainQuarantine
tracker = fresh (record {
  enabled = true;
  min_attempts = 1;
  dns_resolve_min_attempts = 1;
  auto_denylist = false;
})

abbrev probes : List Probe
probes = probe_of "t" (job "x" "a.com") false failed ∷ probe_of "t" (job "x" "") false failed ∷ []

record_hits-InStep_example : InStep (λ d. false) (record_hits tracker [] probes)
unfolding lookup contains
record_hits-InStep_example = record_hits-InStep (λ d. false) tracker [] probes (λ d. ground arith)

-- Two workers; the first takes both jobs of the queue that it can.
abbrev world : World
world = record {
  isolation = pool [];
  queue = job "x" "a.com" ∷ job "y" "a.com" ∷ [];
  excluded_domains = [];
  accounts = [];
  dropped = [];
}

abbrev idle : Worker
idle = record { acc = []; busy = []; ended = false }

abbrev team : Team
team = (world, idle ∷ idle ∷ [])

abbrev later : Team
later = ((worker_round false 1 world idle).0, (worker_round false 1 world idle).1 ∷ idle ∷ [])

abbrev last : Team
last = (
  (worker_round false 1 later.0 idle).0,
  (worker_round false 1 world idle).1 ∷ (worker_round false 1 later.0 idle).1 ∷ [],
)

abbrev both : Run 1 team last
both = next team later last (rounds world [] (idle ∷ []) idle false refl refl) (
    next later last last
      (rounds later.0 ((worker_round false 1 world idle).1 ∷ []) [] idle false refl refl)
      (here last))

Run-jobs_in_example : jobs_in (λ j. 1) last ≡ jobs_in (λ j. 1) team
Run-jobs_in_example = Run-jobs_in 1 (λ j. 1) team last both

Run-IsIsolated_example : IsIsolated last
unfolding contains
Run-IsIsolated_example = Run-IsIsolated 1 team last both (refl, λ d. omega arith)

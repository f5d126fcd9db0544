-- ===== src/Bridge/Pairing.antt =====
-- The batches of src/blockchecks/engine/bridge_worker_pool.py: each job is accounted once, and its domain is
-- free again, however the probe ends.
use blockcheck_s.Prelude.{
  ℕ, zero, suc, if◌then◌else◌, true, false, ◌&&◌, not, String, Option, none, some, List, [], ◌∷◌,
  map, string_eq, ◌==◌, ◌≡◌, refl, ap, arith, if_both, if_split,
}
use blockcheck_s.Prelude.Lists.{All}
use blockcheck_s.Prelude.Dict.{contains, discard, contains-discard}
use blockcheck_s.Bridge.{
  BridgeJob, TcpTestResult, DomainIsolationPool, Account, account_ok, account_skipped, discard_all,
  release_domains, pair_results, run_bridge_batch, stopped_before_probe, result_campaign_pass,
}

abbrev pub domain_of : BridgeJob → String
domain_of job = job.domain

abbrev pub job_of : Account → BridgeJob
job_of (account_ok job ok r) = job
job_of (account_skipped job) = job

pub contains-discard_all :
    (ds s : List String) (d : String)
    → contains (discard_all ds s) d ≡ (contains s d && not (contains ds d))
unfolding contains discard_all
contains-discard_all [] s d = ground arith
contains-discard_all (x ∷ xs) s d =
    ground (arith, contains-discard_all xs (discard x s) d, contains-discard x d s)

pub contains-release_domains :
    (p : DomainIsolationPool) (ds : List String) (d : String)
    → p.enabled ≡ true
    → contains (release_domains p ds).active_domains d
      ≡ (contains p.active_domains d && not (contains ds d))
unfolding release_domains contains
contains-release_domains p [] d on = ground (arith, on)
contains-release_domains p (x ∷ xs) d on =
    ground (arith, on, contains-discard_all (x ∷ xs) p.active_domains d)

pub jobs-pair_results :
    (jobs : List BridgeJob) (rs : List TcpTestResult) → map job_of (pair_results jobs rs) ≡ jobs
unfolding pair_results
jobs-pair_results [] rs = refl
jobs-pair_results (job ∷ jobs) [] = ap (λ js. job ∷ js) (jobs-pair_results jobs [])
jobs-pair_results (job ∷ jobs) (r ∷ rs) =
    if_both {A = List Account} (λ calls. map job_of calls ≡ job ∷ jobs)
      (r.error == stopped_before_probe) _ _ (ap (λ js. job ∷ js) (jobs-pair_results jobs rs))
      (ap (λ js. job ∷ js) (jobs-pair_results jobs rs))

-- A callback with a verdict stands for a result of the probe, and passes its verdict on; a result that
-- says that the probe was stopped is never one.
abbrev pub IsVerdict : Account → Type 0
IsVerdict (account_ok job ok r) =
    (ok ≡ result_campaign_pass r) × ((r.error == stopped_before_probe) ≡ false)
IsVerdict (account_skipped job) = Unit

abbrev pub AllVerdicts : List Account → Type 0
AllVerdicts = All IsVerdict

pub All-IsVerdict :
    (jobs : List BridgeJob) (rs : List TcpTestResult) → AllVerdicts (pair_results jobs rs)
unfolding pair_results
All-IsVerdict [] rs = tt
All-IsVerdict (job ∷ jobs) [] = (tt, All-IsVerdict jobs [])
All-IsVerdict (job ∷ jobs) (r ∷ rs) =
    if_split {A = List Account} AllVerdicts (r.error == stopped_before_probe) _ _
      (λ stopped. (tt, All-IsVerdict jobs rs)) (λ ran. ((refl, ran), All-IsVerdict jobs rs))

unfoldable pub at_index : {A : Type 0} → ℕ → List A → Option A
at_index n [] = none
at_index zero (x ∷ xs) = some x
at_index (suc n) (x ∷ xs) = at_index n xs

-- The callback for a job, by the result at its place: a verdict only where there is a result which does
-- not say that its probe was stopped, and then that of this result.
unfoldable pub account_of : BridgeJob → Option TcpTestResult → Account
account_of job none = account_skipped job
account_of job (some r) =
    if r.error == stopped_before_probe
    then account_skipped job
    else account_ok job (result_campaign_pass r) r

-- The callback at a place, by the job and by the result there.
unfoldable pub account_at : List BridgeJob → List TcpTestResult → ℕ → Option Account
account_at jobs rs n = elim (at_index n jobs) [
  | none ↦ none
  | some job ↦ some (account_of job (at_index n rs))
]

-- The callbacks by the outcome of the probe.
unfoldable pub expected : List BridgeJob → Option (List TcpTestResult) → ℕ → Option Account
expected jobs none n = none
expected jobs (some rs) n = account_at jobs rs n

at_index-pair_results :
    (jobs : List BridgeJob) (rs : List TcpTestResult) (n : ℕ)
    → at_index n (pair_results jobs rs) ≡ account_at jobs rs n
unfolding pair_results at_index account_at account_of
at_index-pair_results [] rs n = refl
at_index-pair_results (job ∷ jobs) [] zero = refl
at_index-pair_results (job ∷ jobs) [] (suc n) = at_index-pair_results jobs [] n
at_index-pair_results (job ∷ jobs) (r ∷ rs) zero = ground arith
at_index-pair_results (job ∷ jobs) (r ∷ rs) (suc n) =
    if_both {A = List Account} (λ calls. at_index (suc n) calls ≡ account_at jobs rs n)
      (r.error == stopped_before_probe) _ _ (at_index-pair_results jobs rs n)
      (at_index-pair_results jobs rs n)

-- What `run_bridge_batch` promises of the jobs, by the outcome of the probe.
pub record IsBatchRun (p : DomainIsolationPool) (jobs : List BridgeJob)
    (outcome : Option (List TcpTestResult)) : Type 0 where
  pub accounted :
      (rs : List TcpTestResult)
      → outcome ≡ some rs
      → map job_of (run_bridge_batch p jobs outcome).accounts ≡ jobs
  pub paired :
      (n : ℕ) → at_index n (run_bridge_batch p jobs outcome).accounts ≡ expected jobs outcome n
  pub same_mode : (run_bridge_batch p jobs outcome).isolation.enabled ≡ p.enabled
  pub verdicts : AllVerdicts (run_bridge_batch p jobs outcome).accounts
  pub released :
      p.enabled ≡ true
      → (d : String)
      → contains (run_bridge_batch p jobs outcome).isolation.active_domains d
        ≡ (contains p.active_domains d && not (contains (map domain_of jobs) d))

enabled-release_domains :
    (p : DomainIsolationPool) (ds : List String) → (release_domains p ds).enabled ≡ p.enabled
unfolding release_domains
enabled-release_domains p ds = ground arith

-- If the probe of a batch returns, with too few or too many results even, there is one callback for each
-- job, in order: the verdict of the result at the place of the job, or, where that result is missing or
-- says that its probe was stopped, that the job was skipped. If the probe raises, there is no callback.
-- However it ends, with isolation enabled the domains of the batch, and no others, are free again, and
-- isolation stays as enabled as it was.
pub run_bridge_batch_lem :
    (p : DomainIsolationPool) (jobs : List BridgeJob) (outcome : Option (List TcpTestResult))
    → IsBatchRun p jobs outcome
unfolding run_bridge_batch contains at_index account_at expected
run_bridge_batch_lem p [] outcome = record {
  accounted = λ rs e. refl;
  paired = λ n. elim outcome as (λ o. none ≡ expected [] o n) [ none ↦ refl | some rs ↦ refl ];
  same_mode = refl;
  verdicts = tt;
  released = λ on d. ground arith;
}
run_bridge_batch_lem p (job ∷ jobs) none = record {
  accounted = λ rs e. absurd (cc e);
  paired = λ n. refl;
  same_mode = enabled-release_domains p (map domain_of (job ∷ jobs));
  verdicts = tt;
  released = λ on d. contains-release_domains p (map domain_of (job ∷ jobs)) d on;
}
run_bridge_batch_lem p (job ∷ jobs) (some rs) = record {
  accounted = λ rs' e. jobs-pair_results (job ∷ jobs) rs;
  paired = λ n. at_index-pair_results (job ∷ jobs) rs n;
  same_mode = enabled-release_domains p (map domain_of (job ∷ jobs));
  verdicts = All-IsVerdict (job ∷ jobs) rs;
  released = λ on d. contains-release_domains p (map domain_of (job ∷ jobs)) d on;
}

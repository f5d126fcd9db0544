-- ===== src/Adaptive/Calls.antt =====
-- The callbacks of a batch of src/blockchecks/engine/adaptive_runner.py account for its jobs.
use blockcheck_s.Prelude.{
  ℕ, ◌+◌, Bool, false, String, Option, none, some, List, [], ◌∷◌, map, string_eq, pair_eq, ==_iff,
  ◌≡◌, refl, ◌∙◌, ap, arith, option_split,
}
use blockcheck_s.Prelude.Lists.{weigh, weigh-append}
use blockcheck_s.Prelude.Dict.{lookup, insert, lookup-insert}
use blockcheck_s.Job.{AdaptiveJob, key}
use blockcheck_s.Queue.{Genetics, Key}
use blockcheck_s.Bridge.{
  TcpTestResult, DomainIsolationPool, Account, account_ok, account_skipped, run_bridge_batch,
}
use blockcheck_s.Bridge.Pairing.{job_of, jobs-pair_results}
use blockcheck_s.Adaptive.{
  Shared, bridge_job, bridge_job_of, bridge_key, by_key, account, account_as_skipped, account_call,
  run_calls,
}
use blockcheck_s.Adaptive.Loads.{weight_of}

-- A job stands in `job_by_key` under its key.
abbrev pub Keyed : List (Key × AdaptiveJob) → Type 0
Keyed m = (k : Key) (job : AdaptiveJob) → lookup k m ≡ some job → key job ≡ k

pub by_key-Keyed :
    (jobs : List AdaptiveJob) (m : List (Key × AdaptiveJob)) → Keyed m → Keyed (by_key jobs m)
unfolding by_key
by_key-Keyed [] m h = h
by_key-Keyed (job ∷ jobs) m h =
    by_key-Keyed jobs (insert (key job) job m)
      (λ k j e. ground (arith, lookup-insert (key job) k job m, ==_iff (key job) k, h k j, e))

-- The key of the job of a callback.
abbrev pub call_key : Account → Key
call_key call = bridge_key (bridge_job_of call)

-- The jobs popped are those accounted, those dropped and `n` more.
abbrev pub IsBalanced : {S : Type 0} → (Key → ℕ) → ℕ → Shared S → Type 0
IsBalanced f n s = weigh f s.popped ≡ weigh f s.accounted + weigh f s.dropped + n

pub weigh-map_key :
    (f : Key → ℕ) (jobs : List AdaptiveJob) → weigh f (map {B = Key} key jobs) ≡ weight_of f jobs
weigh-map_key f [] = refl
weigh-map_key f (job ∷ jobs) = omega (arith, weigh-map_key f jobs)

weigh-call_key :
    (f : Key → ℕ) (calls : List Account) (jobs : List AdaptiveJob)
    → map job_of calls ≡ map bridge_job jobs
    → weigh f (map {B = Key} call_key calls) ≡ weight_of f jobs
weigh-call_key f calls jobs e =
    before calls ∙ ap (λ bs. weigh f (map {B = Key} bridge_key bs)) e ∙ after jobs
  where
    before :
        (cs : List Account)
        → weigh f (map {B = Key} call_key cs) ≡ weigh f (map {B = Key} bridge_key (map job_of cs))
    before [] = refl
    before (account_ok job ok result ∷ cs) = omega (arith, before cs)
    before (account_skipped job ∷ cs) = omega (arith, before cs)

    after :
        (js : List AdaptiveJob)
        → weigh f (map {B = Key} bridge_key (map bridge_job js)) ≡ weight_of f js
    after [] = refl
    after (job ∷ js) = omega (arith, after js)

module _ {S : Type 0} (g : Genetics) (clock : ℕ → ℕ × String) (f : Key → ℕ) where
  pub account-IsBalanced :
      (s : Shared S) (job : AdaptiveJob) (ok : Bool) (result : TcpTestResult) (n : ℕ)
      → IsBalanced f (f (key job) + n) s
      → IsBalanced f n (account g clock s job ok result)
  unfolding account
  account-IsBalanced s job ok result n h =
      omega (arith, h, weigh-append f s.accounted (key job ∷ []))

  account_as_skipped-IsBalanced :
      (s : Shared S) (job : AdaptiveJob) (n : ℕ)
      → IsBalanced f (f (key job) + n) s
      → IsBalanced f n (account_as_skipped g clock s job)
  unfolding account_as_skipped
  account_as_skipped-IsBalanced s job n h =
      omega (arith, h, weigh-append f s.accounted (key job ∷ []))

  account_call-IsBalanced :
      (s : Shared S) (job : AdaptiveJob) (call : Account) (n : ℕ)
      → IsBalanced f (f (key job) + n) s
      → IsBalanced f n (account_call g clock s job call)
  unfolding account_call
  account_call-IsBalanced s job (account_ok found ok result) n h =
      account-IsBalanced s job ok result n h
  account_call-IsBalanced s job (account_skipped found) n h =
      account_as_skipped-IsBalanced s job n h

  pub run_calls-IsBalanced :
      (m : List (Key × AdaptiveJob)) (calls : List Account) (s : Shared S) (n : ℕ)
      → Keyed m
      → IsBalanced f (weigh f (map {B = Key} call_key calls) + n) s
      → IsBalanced f n (run_calls g clock m calls s).0
  unfolding run_calls
  run_calls-IsBalanced m [] s n keyed h = omega (arith, h)
  run_calls-IsBalanced m (call ∷ calls) s n keyed h =
      option_split {B = Shared S × Bool} (λ x. IsBalanced f n x.0) (lookup (call_key call) m) _ _
        (λ e. omega (arith, h, weigh-append f s.dropped (map {B = Key} call_key (call ∷ calls))))
        (λ job e. run_calls-IsBalanced m calls (account_call g clock s job call) n keyed (
          account_call-IsBalanced s job call (weigh f (map {B = Key} call_key calls) + n)
            (omega (arith, h, ap f (keyed (call_key call) job e)))))

-- The callbacks made of a batch and the jobs that have none are the batch; there are none of the latter
-- unless the probe raised.
abbrev pub lost_of : List AdaptiveJob → Option (List TcpTestResult) → List AdaptiveJob
lost_of batch none = batch
lost_of batch (some rs) = []

pub run_bridge_batch-weigh :
    (f : Key → ℕ) (p : DomainIsolationPool) (batch : List AdaptiveJob)
    (outcome : Option (List TcpTestResult))
    → (weigh f (map {B = Key} call_key (run_bridge_batch p (map bridge_job batch) outcome).accounts)
          + weight_of f (lost_of batch outcome)
        ≡ weight_of f batch)
      × ((run_bridge_batch p (map bridge_job batch) outcome).raised ≡ false
          → weight_of f (lost_of batch outcome) ≡ 0)
unfolding run_bridge_batch
run_bridge_batch-weigh f p [] none = (omega arith, λ e. refl)
run_bridge_batch-weigh f p [] (some rs) = (omega arith, λ e. refl)
run_bridge_batch-weigh f p (job ∷ jobs) none = (omega arith, λ e. absurd (cc e))
run_bridge_batch-weigh f p (job ∷ jobs) (some rs) = (
  omega
      (arith, weigh-call_key f _ (job ∷ jobs) (jobs-pair_results (map bridge_job (job ∷ jobs)) rs)),
  λ e. refl,
)

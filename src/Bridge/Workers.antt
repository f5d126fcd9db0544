-- ===== src/Bridge/Workers.antt =====
-- Parallel workers of src/blockchecks/engine/bridge_worker_pool.py: any interleaving of their rounds and of
-- the ends of their batches.
use blockcheck_s.Prelude.{
  ℕ, ◌+◌, ◌≤◌, Bool, true, false, not, String, Option, none, some, List, [], ◌∷◌, ◌++◌, map,
  string_eq, leb, ◌==◌, if◌then◌else◌, ==_iff, ◌≡◌, refl, ◌∙◌, ap, arith, if_both,
}
use blockcheck_s.Prelude.Lists.{length, is_nil, list_split}
use blockcheck_s.Prelude.Dict.{contains, contains-add}
use blockcheck_s.Bridge.{
  BridgeJob, TcpTestResult, DomainIsolationPool, Account, account_skipped, World, Worker,
  claim_domain, run_bridge_batch, start_flush, gather, take_job, worker_round, finish_flush,
}
use blockcheck_s.Bridge.Pairing.{domain_of, job_of, run_bridge_batch_lem}

-- The sum of a weight over some jobs: that it is kept for every weight says that no job is lost or
-- doubled.
abbrev pub tally : (BridgeJob → ℕ) → List BridgeJob → ℕ
tally f [] = 0
tally f (job ∷ jobs) = f job + tally f jobs

tally-append :
    (f : BridgeJob → ℕ) (xs ys : List BridgeJob) → tally f (xs ++ ys) ≡ tally f xs + tally f ys
tally-append f [] ys = omega arith
tally-append f (x ∷ xs) ys = omega (arith, tally-append f xs ys)

-- The same over what a worker has, and over all workers.
abbrev pub load : (BridgeJob → ℕ) → Worker → ℕ
load f w = tally f w.acc + tally f w.busy

abbrev pub held : (BridgeJob → ℕ) → List Worker → ℕ
held f [] = 0
held f (w ∷ ws) = load f w + held f ws

pub held-append :
    (f : BridgeJob → ℕ) (xs ys : List Worker) → held f (xs ++ ys) ≡ held f xs + held f ys
held-append f [] ys = omega arith
held-append f (x ∷ xs) ys = omega (arith, held-append f xs ys)

abbrev pub settled : (BridgeJob → ℕ) → World → ℕ
settled f s = tally f s.queue + tally f (map job_of s.accounts) + tally f s.dropped

map-append : (xs ys : List Account) → map job_of (xs ++ ys) ≡ map job_of xs ++ map job_of ys
map-append [] ys = refl
map-append (x ∷ xs) ys = ap (λ t. job_of x ∷ t) (map-append xs ys)

-- What a round or the end of a batch makes of the jobs.
abbrev pub Keeps : (BridgeJob → ℕ) → World → Worker → World × Worker → Type 0
Keeps f s w r = settled f r.0 + load f r.1 ≡ settled f s + load f w

module _ (f : BridgeJob → ℕ) where
  load-start_flush : (w : Worker) → w.busy ≡ [] → load f (start_flush w) ≡ load f w
  unfolding start_flush
  load-start_flush w idle =
      if_both {A = Worker} (λ k. load f k ≡ load f w) (is_nil w.acc) w _ refl
        (omega (arith, ap (tally f) idle))

  load-gather :
      (n : ℕ) (w : Worker) (job : BridgeJob)
      → w.busy ≡ []
      → load f (gather n w job) ≡ load f w + f job
  unfolding gather
  load-gather n w job idle =
      let w' : Worker = record w { acc = w.acc ++ job ∷ [] } in
      let more = tally-append f w.acc (job ∷ []) in
      if_both {A = Worker} (λ k. load f k ≡ load f w + f job) (leb n (length w'.acc)) _ w'
        (omega (arith, load-start_flush w' idle, more)) (omega (arith, more))

  take_job-Keeps :
      (n : ℕ) (s : World) (w : Worker) (job : BridgeJob) (rest : List BridgeJob)
      → w.busy ≡ []
      → s.queue ≡ job ∷ rest
      → Keeps f s w (take_job n s w job rest)
  unfolding take_job
  take_job-Keeps n s w job rest idle q =
      let taken : tally f s.queue ≡ f job + tally f rest = ap (tally f) q in
      if_both {A = World × Worker} (Keeps f s w) (contains s.excluded_domains job.domain) _ _
        (omega (
          arith,
          taken,
          ap (tally f) (map-append s.accounts (account_skipped job ∷ [])),
          tally-append f (map job_of s.accounts) (job ∷ []),
        ))
        (if_both {A = World × Worker} (Keeps f s w) (not (claim_domain s.isolation job.domain).1) _
          _ (omega (arith, taken, tally-append f rest (job ∷ []), load-start_flush w idle))
          (omega (arith, taken, load-gather n w job idle)))

  pub worker_round-Keeps :
      (stopped : Bool) (n : ℕ) (s : World) (w : Worker)
      → w.busy ≡ []
      → Keeps f s w (worker_round stopped n s w)
  unfolding worker_round
  worker_round-Keeps stopped n s w idle =
      let over : settled f s + load f (start_flush w) ≡ settled f s + load f w =
        omega (arith, load-start_flush w idle) in
      if_both {A = World × Worker} (Keeps f s w) stopped _ _ over (
        list_split {B = World × Worker} (Keeps f s w) s.queue _
          (λ job rest. take_job n s w job rest) (λ empty. over)
          (λ job rest q. take_job-Keeps n s w job rest idle q))

  accounts_none :
      (p : DomainIsolationPool) (jobs : List BridgeJob)
      → (run_bridge_batch p jobs none).accounts ≡ []
  unfolding run_bridge_batch
  accounts_none p [] = refl
  accounts_none p (job ∷ jobs) = refl

  pub finish_flush-Keeps :
      (s : World) (w : Worker) (outcome : Option (List TcpTestResult))
      → Keeps f s w (finish_flush s w outcome)
  unfolding finish_flush
  finish_flush-Keeps s w none =
      let calls = (run_bridge_batch s.isolation w.busy none).accounts in
      omega (
        arith,
        ap (tally f) (map-append s.accounts calls),
        tally-append f (map job_of s.accounts) (map job_of calls),
        ap (λ (c : List Account). tally f (map job_of c)) (accounts_none s.isolation w.busy),
        tally-append f s.dropped w.busy,
      )
  finish_flush-Keeps s w (some rs) =
      let calls = (run_bridge_batch s.isolation w.busy (some rs)).accounts in
      omega (
        arith,
        ap (tally f) (map-append s.accounts calls),
        tally-append f (map job_of s.accounts) (map job_of calls),
        ap (tally f) ((run_bridge_batch_lem s.isolation w.busy (some rs)).accounted rs refl),
      )

-- The job counts if it is on the domain.
abbrev pub on_domain : String → BridgeJob → ℕ
on_domain d job = if job.domain == d then 1 else 0

abbrev pub flag : Bool → ℕ
flag true = 1
flag false = 0

tally-on_domain :
    (d : String) (jobs : List BridgeJob)
    → (contains (map domain_of jobs) d ≡ true → 1 ≤ tally (on_domain d) jobs)
      × (contains (map domain_of jobs) d ≡ false → tally (on_domain d) jobs ≡ 0)
unfolding contains
tally-on_domain d [] = (λ e. absurd (cc e), λ e. refl)
tally-on_domain d (job ∷ jobs) =
    (λ e. ground (arith, tally-on_domain d jobs), λ e. ground (arith, tally-on_domain d jobs))

-- `n` jobs of other workers are on the domain: with those of this worker there is at most one, and none
-- if the domain is not active.
abbrev pub Fits : String → ℕ → World × Worker → Type 0
Fits d n r =
    (n + load (on_domain d) r.1 ≤ flag (contains r.0.isolation.active_domains d))
    × (r.0.isolation.enabled ≡ true)

module _ (d : String) (others : ℕ) where
  take_job-Fits :
      (n : ℕ) (s : World) (w : Worker) (job : BridgeJob) (rest : List BridgeJob)
      → w.busy ≡ []
      → Fits d others (s, w)
      → Fits d others (take_job n s w job rest)
  unfolding take_job claim_domain
  take_job-Fits n s w job rest idle (h, on) = ground (
    arith,
    on,
    h,
    load-start_flush (on_domain d) w idle,
    load-gather (on_domain d) n w job idle,
    contains-add job.domain d s.isolation.active_domains,
    ==_iff job.domain d,
  )

  pub worker_round-Fits :
      (stopped : Bool) (n : ℕ) (s : World) (w : Worker)
      → w.busy ≡ []
      → Fits d others (s, w)
      → Fits d others (worker_round stopped n s w)
  unfolding worker_round
  worker_round-Fits stopped n s w idle (h, on) =
      let over : Fits d others (s, start_flush w) =
        (omega (arith, load-start_flush (on_domain d) w idle, h), on) in
      if_both {A = World × Worker} (Fits d others) stopped _ _ over (
        list_split {B = World × Worker} (Fits d others) s.queue _
          (λ job rest. take_job n s w job rest) (λ empty. over)
          (λ job rest q. take_job-Fits n s w job rest idle (h, on)))

  pub finish_flush-Fits :
      (s : World) (w : Worker) (outcome : Option (List TcpTestResult))
      → Fits d others (s, w)
      → Fits d others (finish_flush s w outcome)
  unfolding finish_flush
  finish_flush-Fits s w outcome (h, on) =
      let run = run_bridge_batch_lem s.isolation w.busy outcome in
      (ground (arith, h, run.released on d, tally-on_domain d w.busy), run.same_mode ∙ on)

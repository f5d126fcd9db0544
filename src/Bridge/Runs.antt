-- ===== src/Bridge/Runs.antt =====
-- Any run of the workers of src/blockchecks/engine/bridge_worker_pool.py.
use blockcheck_s.Prelude.{
  ℕ, ◌+◌, ◌≤◌, Bool, true, false, String, Option, List, [], ◌∷◌, ◌++◌, string_eq, ◌≡◌, refl, ◌∙◌,
  arith,
}
use blockcheck_s.Prelude.Dict.{contains, add}
use blockcheck_s.Bridge.{BridgeJob, TcpTestResult, World, Worker, worker_round, finish_flush}
use blockcheck_s.Bridge.Workers.{
  held, settled, on_domain, flag, held-append, Keeps, Fits, worker_round-Keeps, finish_flush-Keeps,
  worker_round-Fits, finish_flush-Fits,
}

abbrev pub Team : Type 0
Team = World × List Worker

-- One worker that does not wait takes a round, the batch of one that waits ends, or the quarantine
-- excludes a domain. The tasks of an event loop change only between these.
pub data Step (batch_size : ℕ) : Team → Team → Type 0 where
  rounds :
      (s : World) (before after : List Worker) (w : Worker) (stopped : Bool)
      → w.busy ≡ []
      → w.ended ≡ false
      → Step batch_size
          (s, before ++ w ∷ after)
          (
            (worker_round stopped batch_size s w).0,
            before ++ (worker_round stopped batch_size s w).1 ∷ after,
          )
  finishes :
      (s : World) (before after : List Worker) (w : Worker) (outcome : Option (List TcpTestResult))
      → Step batch_size
          (s, before ++ w ∷ after)
          ((finish_flush s w outcome).0, before ++ (finish_flush s w outcome).1 ∷ after)
  excludes :
      (s : World) (workers : List Worker) (d : String)
      → Step batch_size
          (s, workers)
          (record s { excluded_domains = add d s.excluded_domains }, workers)

pub data Run (batch_size : ℕ) : Team → Team → Type 0 where
  here : (t : Team) → Run batch_size t t
  next : (t a b : Team) → Step batch_size t a → Run batch_size a b → Run batch_size t b

abbrev pub jobs_in : (BridgeJob → ℕ) → Team → ℕ
jobs_in f t = settled f t.0 + held f t.1

-- At most one job of all workers is on the domain, and none if the domain is not active.
abbrev pub IsIsolated : Team → Type 0
IsIsolated t =
    (t.0.isolation.enabled ≡ true)
    × ((d : String) → held (on_domain d) t.1 ≤ flag (contains t.0.isolation.active_domains d))

-- What becomes of one worker becomes of the team.
module _ (s : World) (before after : List Worker) (w : Worker) (r : World × Worker) where
  jobs_of_one :
      (f : BridgeJob → ℕ)
      → Keeps f s w r
      → jobs_in f (r.0, before ++ r.1 ∷ after) ≡ jobs_in f (s, before ++ w ∷ after)
  jobs_of_one f k =
      omega (arith, k, held-append f before (r.1 ∷ after), held-append f before (w ∷ after))

  Team-IsIsolated :
      ((d : String) (n : ℕ) → Fits d n (s, w) → Fits d n r)
      → IsIsolated (s, before ++ w ∷ after)
      → IsIsolated (r.0, before ++ r.1 ∷ after)
  Team-IsIsolated k (on, h) =
      let fits : (d : String) → Fits d (held (on_domain d) before + held (on_domain d) after) r =
        λ d. k d _ (omega (arith, h d, held-append (on_domain d) before (w ∷ after)), on) in
      ((fits "").1, λ d. omega (arith, fits d, held-append (on_domain d) before (r.1 ∷ after)))

module _ (batch_size : ℕ) where
  Step-jobs_in : (f : BridgeJob → ℕ) (t u : Team) → Step batch_size t u → jobs_in f u ≡ jobs_in f t
  Step-jobs_in f _ _ (rounds s before after w stopped idle on) =
      jobs_of_one s before after w (worker_round stopped batch_size s w) f
        (worker_round-Keeps f stopped batch_size s w idle)
  Step-jobs_in f _ _ (finishes s before after w outcome) =
      jobs_of_one s before after w (finish_flush s w outcome) f (finish_flush-Keeps f s w outcome)
  Step-jobs_in f _ _ (excludes s workers d) = refl

  Step-IsIsolated : (t u : Team) → Step batch_size t u → IsIsolated t → IsIsolated u
  Step-IsIsolated _ _ (rounds s before after w stopped idle on) h =
      Team-IsIsolated s before after w (worker_round stopped batch_size s w)
        (λ d n. worker_round-Fits d n stopped batch_size s w idle) h
  Step-IsIsolated _ _ (finishes s before after w outcome) h =
      Team-IsIsolated s before after w (finish_flush s w outcome)
        (λ d n. finish_flush-Fits d n s w outcome) h
  Step-IsIsolated _ _ (excludes s workers d) h = h

  -- In any run of any number of workers no job is lost or doubled: for every weight of the jobs, the
  -- sum over the queue, the workers, the callbacks made, and the batches whose probe raised, stays.
  pub Run-jobs_in :
      (f : BridgeJob → ℕ) (t u : Team) → Run batch_size t u → jobs_in f u ≡ jobs_in f t
  Run-jobs_in f _ _ (here t) = refl
  Run-jobs_in f _ _ (next t a b step run) = Run-jobs_in f a b run ∙ Step-jobs_in f t a step

  -- With isolation on, no two jobs of all workers are ever on one domain, if it is so at the start: on
  -- an active domain there is at most one job, gathered or in a batch, and on any other none.
  pub Run-IsIsolated : (t u : Team) → Run batch_size t u → IsIsolated t → IsIsolated u
  Run-IsIsolated _ _ (here t) h = h
  Run-IsIsolated _ _ (next t a b step run) h = Run-IsIsolated a b run (Step-IsIsolated t a step h)

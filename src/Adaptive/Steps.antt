-- ===== src/Adaptive/Steps.antt =====
-- Any interleaving of the workers of src/blockchecks/engine/adaptive_runner.py.
use blockcheck_s.Prelude.{ℕ, Bool, String, Option, some, List, ◌∷◌, ◌++◌, ◌≡◌}
use blockcheck_s.Job.{AdaptiveJob}
use blockcheck_s.Queue.{Genetics, Random, AdaptiveJobQueue}
use blockcheck_s.Queue.Pop.{pop}
use blockcheck_s.Bridge.{TcpTestResult}
use blockcheck_s.Adaptive.{
  Shared, After, ready, popping, probing_batch, probing, Worker, start_round, after_pop,
  after_batch, after_single, start_worker,
}
use blockcheck_s.Prelude.Int.{ℤ}

module _ (g : Genetics) (r : Random) (clock : ℕ → ℕ × String) where
  abbrev pub Team : Type 0
  Team = Shared r.State × List Worker

  -- What one worker does between two awaits: the state that all share and the worker, before and after.
  pub data Move : Shared r.State × Worker → Shared r.State × Worker → Type 0 where
    starts :
        (s : Shared r.State) (w : Worker) (stopped : Bool)
        → w.phase ≡ ready
        → Move (s, w) (s, start_round stopped s w)
    pops :
        (s : Shared r.State) (w : Worker) (stopped : Bool) (exclude : List String)
        (queue : AdaptiveJobQueue r.State) (job : Option AdaptiveJob)
        → w.phase ≡ popping exclude
        → pop r g s.queue exclude ≡ some (queue, job)
        → Move (s, w) (after_pop stopped s w queue job)
    ends_batch :
        (s : Shared r.State) (w : Worker) (stopped : Bool) (batch : List AdaptiveJob)
        (after : After) (outcome : Option (List TcpTestResult))
        → w.phase ≡ probing_batch batch after
        → Move (s, w) (after_batch g clock stopped s w batch after outcome)
    ends_single :
        (s : Shared r.State) (w : Worker) (stopped : Bool) (job : AdaptiveJob)
        (outcome : Option TcpTestResult)
        → w.phase ≡ probing job
        → Move (s, w) (after_single g clock stopped s w job outcome)

  pub data Step : Team → Team → Type 0 where
    moves :
        (x y : Shared r.State × Worker) (before after : List Worker)
        → Move x y
        → Step (x.0, before ++ x.1 ∷ after) (y.0, before ++ y.1 ∷ after)
    begins :
        (s : Shared r.State) (workers : List Worker) (bridge_batch : ℤ)
        → Step
            (s, workers)
            ((start_worker bridge_batch s).0, (start_worker bridge_batch s).1 ∷ workers)

  pub data Run : Team → Team → Type 0 where
    here : (t : Team) → Run t t
    next : (t a b : Team) → Step t a → Run a b → Run t b

  -- What every move keeps of the shared state, every run keeps.
  module _ {ℓ} (P : Shared r.State → Type ℓ)
      (keep : (x y : Shared r.State × Worker) → Move x y → P x.0 → P y.0)
      (begin : (s : Shared r.State) (bridge_batch : ℤ)
        → P s
        → P (start_worker bridge_batch s).0) where
    pub Run-keeps : (t u : Team) → Run t u → P t.0 → P u.0
    Run-keeps _ _ (here t) h = h
    Run-keeps _ _ (next _ _ b (moves x y before after m) run) h =
        Run-keeps (y.0, before ++ y.1 ∷ after) b run (keep x y m h)
    Run-keeps _ _ (next _ _ b (begins s workers bridge_batch) run) h =
        Run-keeps _ b run (begin s bridge_batch h)

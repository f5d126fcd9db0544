-- ===== src/Adaptive/Keeping.antt =====
-- No job of src/blockchecks/engine/adaptive_runner.py is lost without a trace: what becomes of the jobs that
-- the workers pop.
use blockcheck_s.Prelude.{
  ℕ, ◌+◌, Bool, ◌||◌, String, Option, none, some, List, [], ◌∷◌, ◌++◌, map, string_eq, pair_eq, ◌≡◌,
  ap, arith, if_both, if_split,
}
use blockcheck_s.Prelude.Lists.{weigh, weigh-append}
use blockcheck_s.Prelude.Dict.{lookup-nil}
use blockcheck_s.Job.{AdaptiveJob, key}
use blockcheck_s.Queue.{Genetics, Random, Key, AdaptiveJobQueue}
use blockcheck_s.Bridge.{TcpTestResult, result_campaign_pass, run_bridge_batch}
use blockcheck_s.Adaptive.{
  Shared, Worker, After, leave, left_of, bridge_job, by_key, start_round, run_calls, after_pop,
  after_batch, after_single,
}
use blockcheck_s.Adaptive.Steps.{
  Team, Move, starts, pops, ends_batch, ends_single, Step, moves, Run, here, next,
}
use blockcheck_s.Adaptive.Loads.{
  weight_of, in_phase, load, check_stop-load, resume-load, flush_then-load, take_job-load,
}
use blockcheck_s.Adaptive.Calls.{
  by_key-Keyed, IsBalanced, weigh-map_key, account-IsBalanced, run_calls-IsBalanced, lost_of,
  run_bridge_batch-weigh,
}
use blockcheck_s.Prelude.Int.{ℤ}
use blockcheck_s.Adaptive.{start_worker}
use blockcheck_s.Batch.{accumulator}
use blockcheck_s.Adaptive.Steps.{begins}

module _ (g : Genetics) (r : Random) (clock : ℕ → ℕ × String) (f : Key → ℕ) (others : ℕ) where
  -- With what the worker has and the other workers have, the jobs popped are all found.
  abbrev B : Shared r.State × Worker → Type 0
  B x = IsBalanced f (load f x.1 + others) x.0

  after_pop-IsBalanced :
      (stopped : Bool) (s : Shared r.State) (w : Worker) (queue : AdaptiveJobQueue r.State)
      (job : Option AdaptiveJob)
      → in_phase f w.phase ≡ 0
      → B (s, w)
      → B (after_pop stopped s w queue job)
  unfolding after_pop
  after_pop-IsBalanced stopped s w queue none e h =
      omega (arith, h, e, flush_then-load f stopped leave w)
  after_pop-IsBalanced stopped s w queue (some job) e h =
      omega (arith, h, e, take_job-load f stopped job w, weigh-append f s.popped (key job ∷ []))

  after_batch-IsBalanced :
      (stopped : Bool) (s : Shared r.State) (w : Worker) (batch : List AdaptiveJob) (after : After)
      (outcome : Option (List TcpTestResult))
      → in_phase f w.phase ≡ weight_of f batch + weight_of f (left_of after)
      → B (s, w)
      → B (after_batch g clock stopped s w batch after outcome)
  unfolding after_batch
  after_batch-IsBalanced stopped s w batch after outcome e h =
      let run = run_bridge_batch s.isolation (map bridge_job batch) outcome in
      let calls = run_calls g clock (by_key batch []) run.accounts s in
      let lost = lost_of batch outcome in
      let made = run_bridge_batch-weigh f s.isolation batch outcome in
      let n = weight_of f lost + weight_of f (left_of after) + weight_of f w.acc.jobs + others in
      let k =
        run_calls-IsBalanced g clock f (by_key batch []) run.accounts s n
          (by_key-Keyed batch [] (λ k job e. absurd (cc (e, lookup-nil {V = AdaptiveJob} k))))
          (omega (arith, h, e, made.0)) in
      if_split {A = Shared r.State × Worker} B (calls.1 || run.raised) _ _
        (λ raised. omega (
          arith,
          k,
          weigh-append f calls.0.dropped (map {B = Key} key (lost ++ left_of after)),
          weigh-map_key f (lost ++ left_of after),
          weigh-append (λ (j : AdaptiveJob). f (key j)) lost (left_of after),
        ))
        (λ fine. omega (arith, k, made.1 (ground (arith, fine)), resume-load f stopped after w))

  after_single-IsBalanced :
      (stopped : Bool) (s : Shared r.State) (w : Worker) (job : AdaptiveJob)
      (outcome : Option TcpTestResult)
      → in_phase f w.phase ≡ f (key job)
      → B (s, w)
      → B (after_single g clock stopped s w job outcome)
  unfolding after_single
  after_single-IsBalanced stopped s w job none e h =
      omega (arith, h, e, weigh-append f s.dropped (key job ∷ []))
  after_single-IsBalanced stopped s w job (some result) e h =
      let k =
        account-IsBalanced g clock f s job (result_campaign_pass result) result
          (weight_of f w.acc.jobs + others) (omega (arith, h, e)) in
      omega (arith, k, check_stop-load f stopped w)

  start_round-IsBalanced :
      (stopped : Bool) (s : Shared r.State) (w : Worker)
      → in_phase f w.phase ≡ 0
      → B (s, w)
      → B (s, start_round stopped s w)
  unfolding start_round
  start_round-IsBalanced stopped s w e h =
      if_both {A = Worker} (λ k. B (s, k)) stopped _ _
        (omega (arith, h, e, flush_then-load f stopped leave w)) (omega (arith, h, e))

  Move-IsBalanced : (x y : Shared r.State × Worker) → Move g r clock x y → B x → B y
  Move-IsBalanced _ _ (starts s w stopped e) h =
      start_round-IsBalanced stopped s w (ap (in_phase f) e) h
  Move-IsBalanced _ _ (pops s w stopped exclude queue job e p) h =
      after_pop-IsBalanced stopped s w queue job (ap (in_phase f) e) h
  Move-IsBalanced _ _ (ends_batch s w stopped batch after outcome e) h =
      after_batch-IsBalanced stopped s w batch after outcome (ap (in_phase f) e) h
  Move-IsBalanced _ _ (ends_single s w stopped job outcome e) h =
      after_single-IsBalanced stopped s w job outcome (ap (in_phase f) e) h

-- A new worker has nothing yet.
begun :
    {S : Type 0} (f : Key → ℕ) (s : Shared S) (workers : List Worker) (bridge_batch : ℤ)
    → IsBalanced f (weigh (load f) workers) s
    → IsBalanced f
        (weigh (load f) ((start_worker bridge_batch s).1 ∷ workers))
        (start_worker bridge_batch s).0
unfolding start_worker accumulator
begun f s workers bridge_batch h = omega (arith, h)

module _ (g : Genetics) (r : Random) (clock : ℕ → ℕ × String) where
  -- Of every key, the jobs popped with it are those accounted, those dropped by an exception, and those
  -- that a worker has, gathered, in a batch or in a probe of its own.
  abbrev pub IsTraced : Team g r clock → Type 0
  IsTraced t = (f : Key → ℕ) → IsBalanced f (weigh (load f) t.1) t.0

  Step-IsTraced : (t u : Team g r clock) → Step g r clock t u → IsTraced t → IsTraced u
  Step-IsTraced _ _ (moves x y before after m) h f =
      let others = weigh (load f) before + weigh (load f) after in
      let k =
        Move-IsBalanced g r clock f others x y m
          (omega (arith, h f, weigh-append (load f) before (x.1 ∷ after))) in
      omega (arith, k, weigh-append (load f) before (y.1 ∷ after))
  Step-IsTraced _ _ (begins s workers bridge_batch) h f = begun f s workers bridge_batch (h f)

  -- In any run of any number of workers no job popped is lost or doubled unseen: for every weight of the
  -- keys, the sum over the jobs popped is that over the jobs accounted, those dropped by an exception and
  -- those that the workers have, if it is so at the start.
  pub Run-IsTraced : (t u : Team g r clock) → Run g r clock t u → IsTraced t → IsTraced u
  Run-IsTraced _ _ (here t) h = h
  Run-IsTraced _ _ (next t a b step run) h = Run-IsTraced a b run (Step-IsTraced t a step h)

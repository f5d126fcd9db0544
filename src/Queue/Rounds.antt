-- ===== src/Queue/Rounds.antt =====
-- The loop of `pop` of the queue of src/blockchecks/engine/adaptive_queue.py ends, and keeps its promise.
use mathlib.Core.Path.{subst}
use native.Mathlib.Nat.{le_trans}
use blockcheck_s.Prelude.{
  ℕ, zero, suc, ◌+◌, ◌*◌, ◌≤◌, ◌<◌, true, String, Option, none, some, List, [], ◌∷◌, string_eq,
  pair_eq, if◌then◌else◌, ◌≡◌, refl, sym, arith, if_both, if_split, option_split,
}
use blockcheck_s.Prelude.Lists.{length}
use blockcheck_s.Prelude.Dict.{lookup, contains, add}
use blockcheck_s.Job.{AdaptiveJob, key}
use blockcheck_s.Queue.{
  Genetics, Key, AdaptiveJobQueue, drop_pending, entry_stale, refresh, push_entry, job_priority,
}
use blockcheck_s.Queue.Heap.{HeapEntry, push_heap}
use blockcheck_s.Queue.Invariant.{lookup-drop_pending, heap-drop_pending, weights-drop_pending}
use blockcheck_s.Queue.Pop.{Round, again, stop, discard_job, visit, round, pop_loop}
use blockcheck_s.Queue.Promise.{IsLooping, IsPopped, IsRound, IsPopped-trans}
use blockcheck_s.Queue.Popping.{round-IsRound}

module _ {S : Type 0} (g : Genetics) where
  -- The rounds that an entry can take: two, if it is stale.
  entry_cost : AdaptiveJobQueue S → HeapEntry → ℕ
  entry_cost q e = elim (lookup e.key q.pending) [
    | none ↦ 1
    | some job ↦ if entry_stale g q e job then 2 else 1
  ]

  cost : AdaptiveJobQueue S → List HeapEntry → ℕ
  cost q [] = 0
  cost q (e ∷ es) = entry_cost q e + cost q es

  entry_cost_bounds :
      (q : AdaptiveJobQueue S) (e : HeapEntry) → (1 ≤ entry_cost q e) × (entry_cost q e ≤ 2)
  unfolding entry_cost
  entry_cost_bounds q e = ground arith

  cost-le : (q : AdaptiveJobQueue S) (h : List HeapEntry) → cost q h ≤ length h * 2
  unfolding cost
  cost-le q [] = omega arith
  cost-le q (e ∷ es) = omega (arith, cost-le q es, entry_cost_bounds q e)

  cost-push_heap :
      (q : AdaptiveJobQueue S) (e : HeapEntry) (h : List HeapEntry)
      → cost q (push_heap e h) ≡ entry_cost q e + cost q h
  unfolding cost push_heap
  cost-push_heap q e [] = refl
  cost-push_heap q e (x ∷ xs) = ground (arith, cost-push_heap q e xs)

  entry_cost_mono :
      (q q' : AdaptiveJobQueue S) (e : HeapEntry)
      → q'.weights ≡ q.weights
      → ((k : Key) (job : AdaptiveJob)
          → lookup k q'.pending ≡ some job
          → lookup k q.pending ≡ some job)
      → entry_cost q' e ≤ entry_cost q e
  unfolding entry_cost entry_stale
  entry_cost_mono q q' e w sub =
      option_split {B = ℕ} (λ n. n ≤ entry_cost q e) (lookup e.key q'.pending) 1 _
        (λ gone. (entry_cost_bounds q e).0) (λ job found. ground (arith, sub e.key job found, w))

  -- Fewer pending jobs cost no more.
  cost_mono :
      (q q' : AdaptiveJobQueue S) (h : List HeapEntry)
      → q'.weights ≡ q.weights
      → ((k : Key) (job : AdaptiveJob)
          → lookup k q'.pending ≡ some job
          → lookup k q.pending ≡ some job)
      → cost q' h ≤ cost q h
  unfolding cost
  cost_mono q q' [] w sub = omega arith
  cost_mono q q' (e ∷ es) w sub =
      omega (arith, cost_mono q q' es w sub, entry_cost_mono q q' e w sub)

  module _ (exclude : List String) (q : AdaptiveJobQueue S) (e : HeapEntry)
      (job : AdaptiveJob) where
    module _ (found : lookup e.key q.pending ≡ some job) (ek : e.key ≡ key job) where
      entry_cost_stale : entry_stale g q e job ≡ true → entry_cost q e ≡ 2
      unfolding entry_cost
      entry_cost_stale stale = ground (arith, found, stale)

      -- The entry that replaces a stale one is not stale.
      entry_cost_fresh :
          entry_cost
            (refresh g q job)
            (record { priority = job_priority g q.weights job; seq = q.seq + 1; key = key job })
          ≡ 1
      unfolding entry_cost entry_stale refresh push_entry
      entry_cost_fresh = ground (arith, subst (λ k. lookup k q.pending ≡ some job) ek found)

      cost-refresh :
          entry_stale g q e job ≡ true
          → cost (refresh g q job) (refresh g q job).heap < cost q (e ∷ q.heap)
      unfolding refresh push_entry cost
      cost-refresh stale = omega (
        arith,
        entry_cost_stale stale,
        entry_cost_fresh,
        cost-push_heap (refresh g q job)
            (record { priority = job_priority g q.weights job; seq = q.seq + 1; key = key job })
            q.heap,
        cost_mono q (refresh g q job) q.heap refl (λ k j p. p),
      )

    cost-discard_job :
        cost (discard_job q (key job)) (discard_job q (key job)).heap < cost q (e ∷ q.heap)
    unfolding discard_job cost
    cost-discard_job =
        let marked : AdaptiveJobQueue S = record q { finished = add (key job) q.finished } in
        subst (λ h. cost (drop_pending marked (key job)) h < cost q (e ∷ q.heap))
          (sym (heap-drop_pending marked (key job)))
          (omega (
            arith,
            entry_cost_bounds q e,
            cost_mono q (drop_pending marked (key job)) q.heap
                (weights-drop_pending marked (key job))
                (λ k j p. ground (arith, lookup-drop_pending marked (key job) k)),
          ))

  abbrev IsCheaper : ℕ → Round S → Type 0
  IsCheaper n (again q' skipped) = cost q' q'.heap < n
  IsCheaper n (stop q' job) = Unit

  cost-tail : (q : AdaptiveJobQueue S) (e : HeapEntry) → cost q q.heap < cost q (e ∷ q.heap)
  unfolding cost
  cost-tail q e = omega (arith, entry_cost_bounds q e)

  IsCheaper-le : (a b : ℕ) (x : Round S) → a ≤ b → IsCheaper a x → IsCheaper b x
  IsCheaper-le a b (again q' skipped) h c = omega arith
  IsCheaper-le a b (stop q' job) h c = tt

  visit-IsCheaper :
      (exclude : List String) (q : AdaptiveJobQueue S) (e : HeapEntry) (job : AdaptiveJob)
      (skipped : List HeapEntry)
      → lookup e.key q.pending ≡ some job
      → e.key ≡ key job
      → IsCheaper (cost q (e ∷ q.heap)) (visit g exclude q e job skipped)
  unfolding visit
  visit-IsCheaper exclude q e job skipped found ek =
      if_split {A = Round S} (IsCheaper (cost q (e ∷ q.heap))) (entry_stale g q e job) _ _
        (cost-refresh exclude q e job found ek)
        (λ current.
          if_both {A = Round S} (IsCheaper (cost q (e ∷ q.heap)))
            (contains q.excluded_domains job.domain) _ _ (cost-discard_job exclude q e job)
            (if_both {A = Round S} (IsCheaper (cost q (e ∷ q.heap))) (contains exclude job.domain) _
              _ (cost-tail q e) tt))

  round-IsCheaper :
      (exclude : List String) (q : AdaptiveJobQueue S) (h skipped : List HeapEntry)
      → q.heap ≡ h
      → IsLooping q skipped
      → IsCheaper (cost q h) (round g exclude q h skipped)
  unfolding round
  round-IsCheaper exclude q [] skipped p l = tt
  round-IsCheaper exclude q (e ∷ es) skipped p l =
      let popped : AdaptiveJobQueue S = record q { heap = es } in
      let same = cost_mono q popped (e ∷ es) refl (λ k j x. x) in
      option_split {B = Round S} (IsCheaper (cost q (e ∷ es))) (lookup e.key q.pending)
        (again popped skipped) (λ job. visit g exclude popped e job skipped)
        (λ gone. le_trans (cost-tail popped e) same)
        (λ job found. IsCheaper-le _ _ (visit g exclude popped e job skipped) same (
          visit-IsCheaper exclude popped e job skipped found (sym (l.valid.filed e.key job found))))

  -- The loop returns whenever the fuel passes the cost, and what it returns is what `pop` promises.
  pop_loop_lem :
      (exclude : List String) (fuel : ℕ) (q : AdaptiveJobQueue S) (skipped : List HeapEntry)
      → IsLooping q skipped
      → cost q q.heap < fuel
      → (r : AdaptiveJobQueue S × Option AdaptiveJob) × (pop_loop g exclude fuel q skipped ≡ some r)
        × IsPopped q r.0 r.1
  unfolding pop_loop
  pop_loop_lem exclude zero q skipped l c = absurd (omega arith)
  pop_loop_lem exclude (suc fuel) q skipped l c =
      next (pop_loop_lem exclude fuel) (round g exclude q q.heap skipped)
        (round-IsRound g exclude q q.heap skipped refl l)
        (round-IsCheaper exclude q q.heap skipped refl l)
    where
      next :
          ((q' : AdaptiveJobQueue S) (skipped' : List HeapEntry)
            → IsLooping q' skipped'
            → cost q' q'.heap < fuel
            → (r : AdaptiveJobQueue S × Option AdaptiveJob) × (pop_loop g exclude fuel q' skipped'
                ≡ some r)
              × IsPopped q' r.0 r.1)
          → (x : Round S) → IsRound q x
          → IsCheaper (cost q q.heap) x
          → (r : AdaptiveJobQueue S × Option AdaptiveJob) × (◌≡◌
              {A = Option (AdaptiveJobQueue S × Option AdaptiveJob)}
              (elim x [
                | again q' skipped' ↦ pop_loop g exclude fuel q' skipped'
                | stop q' job ↦ some (q', job)
              ])
              (some r))
            × IsPopped q r.0 r.1
      next ih (again q' skipped') h k =
          let (r, e, good) = ih q' skipped' h.0 (omega arith) in
          (r, e, IsPopped-trans q q' h.1 r.0 r.1 good)
      next ih (stop q' job) h k = ((q', job), refl, h)

  -- Twice the entries and one more are fuel enough for the loop.
  pub pop_loop_total :
      (exclude : List String) (q : AdaptiveJobQueue S)
      → IsLooping q []
      → (r : AdaptiveJobQueue S × Option AdaptiveJob) × (pop_loop g exclude
            (suc (length q.heap * 2))
            q
            []
          ≡ some r)
        × IsPopped q r.0 r.1
  pop_loop_total exclude q l =
      pop_loop_lem exclude (suc (length q.heap * 2)) q [] l (omega (arith, cost-le q q.heap))

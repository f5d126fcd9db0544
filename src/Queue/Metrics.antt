-- ===== src/Queue/Metrics.antt =====
-- Which methods of the queue of src/blockchecks/engine/adaptive_queue.py count in its metrics.
use blockcheck_s.Prelude.{
  ℕ, zero, suc, ◌+◌, Bool, true, false, ◌&&◌, ◌||◌, not, String, Option, none, some, List, [], ◌∷◌,
  ◌++◌, string_eq, pair_eq, ltb, eqb, if◌then◌else◌, ◌≡◌, arith, if_both, option_split,
}
use blockcheck_s.Prelude.Lists.{is_nil, length}
use blockcheck_s.Prelude.Dict.{lookup, has_key, contains, add}
use blockcheck_s.Job.{StrategyItem, AdaptiveJob, key}
use blockcheck_s.Queue.{
  Genetics, Random, Key, AdaptiveJobQueue, drop_pending, push_entry, refresh, rebuild_heap,
  maybe_compact_heap, maybe_rebuild_heap, enqueue, entry_stale,
}
use blockcheck_s.Queue.Heap.{HeapEntry}
use blockcheck_s.Queue.Pop.{
  Round, again, stop, discard_job, take_job, pop_skipped, visit, round, pop_loop, reservoir,
  epsilon_pick_key, pop_random, pop_fuel, draw, pop,
}
use blockcheck_s.Queue.Results.{
  with_index, fan_out, fan_out_to, fanout_on_pass, settle, boost, mark_done, record_run, from_item,
  sibling_domains,
}

abbrev pub one_if : Bool → ℕ
one_if b = if b then 1 else 0

module _ {S : Type 0} (run passed : ℕ) where
  -- The metrics count `run` jobs, `passed` of which passed.
  pub record Counts (q : AdaptiveJobQueue S) : Type 0 where
    pub run_is : q.metrics.jobs_run ≡ run
    pub passed_is : q.metrics.jobs_passed ≡ passed

  drop_pending-Counts : (q : AdaptiveJobQueue S) (k : Key) → Counts q → Counts (drop_pending q k)
  unfolding drop_pending
  drop_pending-Counts q k h =
      option_split Counts (lookup k q.pending) _ _ (λ e. h)
        (λ job e. record { run_is = h.run_is; passed_is = h.passed_is })

module _ {S : Type 0} (g : Genetics) (run passed : ℕ) where
  abbrev C : AdaptiveJobQueue S → Type 0
  C q = Counts run passed q

  maybe_compact_heap-Counts : (q : AdaptiveJobQueue S) → C q → C (maybe_compact_heap g q)
  unfolding maybe_compact_heap rebuild_heap
  maybe_compact_heap-Counts q h =
      let k : C (rebuild_heap g q) = record { run_is = h.run_is; passed_is = h.passed_is } in
      if_both {A = AdaptiveJobQueue S} C _ (rebuild_heap g q) q k h

  maybe_rebuild_heap-Counts : (q : AdaptiveJobQueue S) → C q → C (maybe_rebuild_heap g q)
  unfolding maybe_rebuild_heap rebuild_heap
  maybe_rebuild_heap-Counts q h =
      if_both {A = AdaptiveJobQueue S} C (eqb q.heap_rebuild_every 0) q _ h (
        if_both {A = AdaptiveJobQueue S} C (ltb (q.heap_rebuild_counter + 1) q.heap_rebuild_every) _
          _ (record { run_is = h.run_is; passed_is = h.passed_is })
          (record { run_is = h.run_is; passed_is = h.passed_is }))

  enqueue-Counts : (q : AdaptiveJobQueue S) (job : AdaptiveJob) → C q → C (enqueue g q job).0
  unfolding enqueue push_entry
  enqueue-Counts q job h =
      if_both {A = AdaptiveJobQueue S × Bool} (λ r. C r.0)
        (has_key (key job) q.pending || contains q.finished (key job)) (q, false) _ h
        (record { run_is = h.run_is; passed_is = h.passed_is })

  fan_out-Counts :
      (q : AdaptiveJobQueue S) (item : StrategyItem) (ds : List String)
      → C q
      → C (fan_out g q item ds).0
  unfolding fan_out fan_out_to
  fan_out-Counts q item [] h = h
  fan_out-Counts q item (d ∷ ds) h = fan_out-Counts (fan_out_to g q item d).0 item ds (
      if_both {A = AdaptiveJobQueue S × Bool} (λ r. C r.0) (contains q.excluded_domains d)
        (q, false) _ h (enqueue-Counts q (from_item g item d true) h))

  fanout_on_pass-Counts :
      (q : AdaptiveJobQueue S) (job : AdaptiveJob) → C q → C (fanout_on_pass g q job).0
  unfolding fanout_on_pass with_index
  fanout_on_pass-Counts q job h =
      let indexed =
        if_both {A = AdaptiveJobQueue S} C (is_nil q.cluster_index && not (is_nil q.all_domains)) _
          q (record { run_is = h.run_is; passed_is = h.passed_is }) h in
      let siblings =
        sibling_domains g job.domain q.all_domains (some (with_index g q).cluster_index) in
      let k = fan_out-Counts (with_index g q) job.item siblings indexed in
      if_both {A = AdaptiveJobQueue S × ℕ} (λ r. C r.0) (is_nil q.all_domains) (q, 0) _ h
        (record { run_is = k.run_is; passed_is = k.passed_is })

module _ {S : Type 0} (g : Genetics) (run passed : ℕ) where
  -- `mark_done` counts one job more, and one pass more if it passed.
  pub mark_done-Counts :
      (q : AdaptiveJobQueue S) (now : ℕ) (job : AdaptiveJob) (ok : Bool)
      → Counts run passed q
      → Counts (run + 1) (passed + one_if ok) (mark_done g q now job ok).0
  unfolding mark_done settle boost record_run
  mark_done-Counts q now job true h =
      let d =
        drop_pending-Counts run passed (record q { finished = add (key job) q.finished }) (key job)
          (record { run_is = h.run_is; passed_is = h.passed_is }) in
      fanout_on_pass-Counts g (run + 1) (passed + 1) _ job (
        maybe_compact_heap-Counts g (run + 1) (passed + 1) _ (
          maybe_rebuild_heap-Counts g (run + 1) (passed + 1) _
            (record { run_is = omega (arith, d.run_is); passed_is = omega (arith, d.passed_is) })))
  mark_done-Counts q now job false h =
      let d =
        drop_pending-Counts run passed (record q { finished = add (key job) q.finished }) (key job)
          (record { run_is = h.run_is; passed_is = h.passed_is }) in
      maybe_compact_heap-Counts g (run + 1) (passed + 0) _
        (record { run_is = omega (arith, d.run_is); passed_is = omega (arith, d.passed_is) })

module _ {S : Type 0} (g : Genetics) (run passed : ℕ) where
  abbrev D : AdaptiveJobQueue S → Type 0
  D q = Counts run passed q

  pop_skipped-Counts : (q : AdaptiveJobQueue S) (es : List HeapEntry) → D q → D (pop_skipped q es).0
  unfolding pop_skipped take_job
  pop_skipped-Counts q [] h = h
  pop_skipped-Counts q (e ∷ es) h =
      option_split {B = AdaptiveJobQueue S × Option AdaptiveJob} (λ r. D r.0)
        (lookup e.key q.pending) _ _ (λ gone. pop_skipped-Counts q es h)
        (λ job found.
          let k = drop_pending-Counts run passed q e.key h in
          record { run_is = k.run_is; passed_is = k.passed_is })

  abbrev RoundCounts : Round S → Type 0
  RoundCounts (again q skipped) = D q
  RoundCounts (stop q job) = D q

  visit-Counts :
      (exclude : List String) (q : AdaptiveJobQueue S) (e : HeapEntry) (job : AdaptiveJob)
      (skipped : List HeapEntry)
      → D q
      → RoundCounts (visit g exclude q e job skipped)
  unfolding visit refresh push_entry discard_job take_job
  visit-Counts exclude q e job skipped h =
      let moved =
        drop_pending-Counts run passed (record q { finished = add (key job) q.finished }) (key job)
          (record { run_is = h.run_is; passed_is = h.passed_is }) in
      let taken = drop_pending-Counts run passed q (key job) h in
      if_both {A = Round S} RoundCounts (entry_stale g q e job) _ _
        (record { run_is = h.run_is; passed_is = h.passed_is })
        (if_both {A = Round S} RoundCounts (contains q.excluded_domains job.domain) _ _ moved (
          if_both {A = Round S} RoundCounts (contains exclude job.domain) _ _ h
            (record { run_is = taken.run_is; passed_is = taken.passed_is })))

  round-Counts :
      (exclude : List String) (q : AdaptiveJobQueue S) (es skipped : List HeapEntry)
      → D q
      → RoundCounts (round g exclude q es skipped)
  unfolding round
  round-Counts exclude q [] skipped h = pop_skipped-Counts q skipped h
  round-Counts exclude q (e ∷ es) skipped h =
      let popped : AdaptiveJobQueue S = record q { heap = es } in
      let k : D popped = record { run_is = h.run_is; passed_is = h.passed_is } in
      option_split {B = Round S} RoundCounts (lookup e.key q.pending) _ _ (λ gone. k)
        (λ job found. visit-Counts exclude popped e job skipped k)

  abbrev pub ResultCounts : Option (AdaptiveJobQueue S × Option AdaptiveJob) → Type 0
  ResultCounts none = Unit
  ResultCounts (some r) = D r.0

  pop_loop-Counts :
      (exclude : List String) (fuel : ℕ) (q : AdaptiveJobQueue S) (skipped : List HeapEntry)
      → D q
      → ResultCounts (pop_loop g exclude fuel q skipped)
  unfolding pop_loop
  pop_loop-Counts exclude zero q skipped h = tt
  pop_loop-Counts exclude (suc fuel) q skipped h =
      elim (round g exclude q q.heap skipped)
          as (λ o.
            RoundCounts o
            → ResultCounts (elim o [
              | again q' skipped' ↦ pop_loop g exclude fuel q' skipped'
              | stop q' job ↦ some (q', job)
            ])) [
              | again q' skipped' ↦ λ k. pop_loop-Counts exclude fuel q' skipped' k
              | stop q' job ↦ λ k. k
            ]
        (round-Counts exclude q q.heap skipped h)

module _ (g : Genetics) (r : Random) (run passed : ℕ) where
  abbrev E : AdaptiveJobQueue r.State → Type 0
  E q = Counts run passed q

  epsilon_pick_key-Counts :
      (q : AdaptiveJobQueue r.State) (exclude : List String)
      → E q
      → E (epsilon_pick_key r q exclude).0
  unfolding epsilon_pick_key
  epsilon_pick_key-Counts q exclude h =
      if_both {A = AdaptiveJobQueue r.State × Option Key} (λ x. E x.0)
        (eqb (reservoir r exclude q.pending none 0 q.rng).1 0) _ _
        (record { run_is = h.run_is; passed_is = h.passed_is })
        (record { run_is = h.run_is; passed_is = h.passed_is })

  pop_random-Counts :
      (q : AdaptiveJobQueue r.State) (exclude : List String) → E q → E (pop_random r q exclude).0
  unfolding pop_random
  pop_random-Counts q exclude h =
      let k = epsilon_pick_key-Counts q exclude h in
      option_split {B = AdaptiveJobQueue r.State × Option AdaptiveJob} (λ x. E x.0)
        (epsilon_pick_key r q exclude).1 _ _ (λ e. k)
        (λ chosen e. drop_pending-Counts run passed (epsilon_pick_key r q exclude).0 chosen k)

  -- `pop` counts nothing.
  pub pop-Counts :
      (q : AdaptiveJobQueue r.State) (soft : List String)
      → Counts run passed q
      → ResultCounts g run passed (pop r g q soft)
  unfolding pop draw
  pop-Counts q soft h =
      let drawn =
        if_both {A = AdaptiveJobQueue r.State × Bool} (λ x. E x.0) (ltb 0 q.epsilon) _ (q, false)
          (record { run_is = h.run_is; passed_is = h.passed_is }) h in
      let exclude = soft ++ q.excluded_domains in
      let Result = Option (AdaptiveJobQueue r.State × Option AdaptiveJob) in
      if_both {A = Result} (ResultCounts g run passed) (eqb (length q.pending) 0) _ _ h (
        if_both {A = Result} (ResultCounts g run passed) ((draw r q).1 && ltb 1 (length q.pending))
          _ _ (pop_random-Counts (draw r q).0 exclude drawn)
          (pop_loop-Counts g run passed exclude (pop_fuel r (draw r q).0) (draw r q).0 [] drawn))

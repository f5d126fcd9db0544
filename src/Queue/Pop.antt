-- ===== src/Queue/Pop.antt =====
-- `pop` of `AdaptiveJobQueue` in src/blockchecks/engine/adaptive_queue.py.
use blockcheck_s.Prelude.{
  ℕ, zero, suc, ◌+◌, ◌*◌, Bool, false, ◌&&◌, String, Option, none, some, List, [], ◌∷◌, ◌++◌,
  string_eq, pair_eq, ltb, eqb, if◌then◌else◌,
}
use blockcheck_s.Prelude.Lists.{length}
use blockcheck_s.Prelude.Dict.{lookup, contains, add}
use blockcheck_s.Job.{AdaptiveJob, key}
use blockcheck_s.Queue.{Genetics, Random, Key, AdaptiveJobQueue, drop_pending, entry_stale, refresh}
use blockcheck_s.Queue.Heap.{HeapEntry, push_all}

-- What a round of the loop `while self._heap` comes to: the next round with the entries skipped so
-- far, or the end of `pop` with its result.
pub data Round (S : Type 0) : Type 0 where
  again : AdaptiveJobQueue S → List HeapEntry → Round S
  stop : AdaptiveJobQueue S → Option AdaptiveJob → Round S

module _ {S : Type 0} where
  -- `self._done.add(job.key)` and the drop of the job.
  unfoldable pub discard_job : AdaptiveJobQueue S → Key → AdaptiveJobQueue S
  discard_job q k = drop_pending (record q { finished = add k q.finished }) k

  -- The drop of the job that is returned, and the push of what was skipped.
  unfoldable pub take_job : AdaptiveJobQueue S → Key → List HeapEntry → AdaptiveJobQueue S
  take_job q k skipped = let q' = drop_pending q k in record q' { heap = push_all skipped q'.heap }

  -- `while skipped`. The list is no heap, but `heappop` takes its first entry all the same; what it
  -- leaves is pushed back one by one, in whatever order.
  unfoldable pub pop_skipped :
      AdaptiveJobQueue S → List HeapEntry → AdaptiveJobQueue S × Option AdaptiveJob
  pop_skipped q [] = (q, none)
  pop_skipped q (e ∷ es) =
      let rest = pop_skipped q es in
      elim (lookup e.key q.pending) [ none ↦ rest | some job ↦ (take_job q e.key es, some job) ]

module _ {S : Type 0} (g : Genetics) (exclude : List String) where
  -- The rest of a round for an entry whose job is pending.
  unfoldable pub visit : AdaptiveJobQueue S → HeapEntry → AdaptiveJob → List HeapEntry → Round S
  visit q e job skipped =
      if entry_stale g q e job
      then again (refresh g q job) skipped
      else if contains q.excluded_domains job.domain
      then again (discard_job q (key job)) skipped
      else if contains exclude job.domain
      then again q (skipped ++ e ∷ [])
      else stop (take_job q (key job) skipped) (some job)

  -- One round, or the end of the loop where the heap is empty.
  unfoldable pub round : AdaptiveJobQueue S → List HeapEntry → List HeapEntry → Round S
  unfolding visit
  round q [] skipped = (let (q', job) = pop_skipped q skipped in stop q' job)
  round q (e ∷ es) skipped =
      let popped = record q { heap = es } in
      elim (lookup e.key q.pending) [
        | none ↦ again popped skipped
        | some job ↦ visit popped e job skipped
      ]

  -- The loop; `none` means that the fuel ran out.
  unfoldable pub pop_loop :
      ℕ → AdaptiveJobQueue S → List HeapEntry → Option (AdaptiveJobQueue S × Option AdaptiveJob)
  pop_loop zero q skipped = none
  pop_loop (suc fuel) q skipped = elim (round q q.heap skipped) [
    | again q' skipped' ↦ pop_loop fuel q' skipped'
    | stop q' job ↦ some (q', job)
  ]

module _ (r : Random) where
  open r use {State, explore, one_in}

  -- The reservoir loop of `_epsilon_pick_key` over the jobs outside `exclude`: the key chosen, the
  -- number of jobs counted, the state of the random numbers.
  unfoldable pub reservoir :
      List String → List (Key × AdaptiveJob) → Option Key → ℕ → State → Option Key × ℕ × State
  reservoir exclude [] chosen count s = (chosen, count, s)
  reservoir exclude ((k, job) ∷ m) chosen count s =
      let (hit, s') = one_in (count + 1) s in
      let skip = contains exclude job.domain in
      reservoir exclude m (if skip then chosen else if hit then some k else chosen)
        (if skip then count else count + 1) (if skip then s else s')

  unfoldable pub epsilon_pick_key :
      AdaptiveJobQueue State → List String → AdaptiveJobQueue State × Option Key
  epsilon_pick_key q exclude =
      let (chosen, count, s) = reservoir exclude q.pending none 0 q.rng in
      let (chosen', count', s') = reservoir q.excluded_domains q.pending chosen 0 s in
      if eqb count 0 then (record q { rng = s' }, chosen') else (record q { rng = s }, chosen)

  -- The ε-random branch of `pop`.
  unfoldable pub pop_random :
      AdaptiveJobQueue State → List String → AdaptiveJobQueue State × Option AdaptiveJob
  pop_random q exclude =
      let (q', chosen) = epsilon_pick_key q exclude in
      elim chosen [ none ↦ (q', none) | some k ↦ (drop_pending q' k, lookup k q'.pending) ]

  -- Every round but the last takes an entry off the heap, or replaces a stale entry by one that is
  -- not stale: twice the entries and one more are enough rounds.
  abbrev pub pop_fuel : AdaptiveJobQueue State → ℕ
  pop_fuel q = suc (length q.heap * 2)

  -- The draw of `self._rng.random() < self.epsilon`, made only at `0 < self.epsilon`.
  unfoldable pub draw : AdaptiveJobQueue State → AdaptiveJobQueue State × Bool
  draw q =
      let (hit, s) = explore q.epsilon q.rng in
      if ltb 0 q.epsilon then (record q { rng = s }, hit) else (q, false)

  -- `pop`, with `soft` for `exclude_domains`
  unfoldable pub pop :
      Genetics
      → AdaptiveJobQueue State
      → List String
      → Option (AdaptiveJobQueue State × Option AdaptiveJob)
  pop g q soft =
      let exclude = soft ++ q.excluded_domains in
      let (q', hit) = draw q in
      let random = pop_random q' exclude in
      let greedy = pop_loop g exclude (pop_fuel q') q' [] in
      if eqb (length q.pending) 0
      then some (q, none)
      else if hit && ltb 1 (length q.pending)
      then some random
      else greedy

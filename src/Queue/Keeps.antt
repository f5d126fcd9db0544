-- ===== src/Queue/Keeps.antt =====
-- Every method of the queue of src/blockchecks/engine/adaptive_queue.py but `pop` keeps the invariant.
use blockcheck_s.Prelude.{
  ℕ, ◌+◌, Bool, true, false, ◌&&◌, not, String, some, List, [], ◌∷◌, string_eq, pair_eq, ltb, eqb,
  if◌then◌else◌, if_both,
}
use blockcheck_s.Prelude.Int.{ℤ, at_least}
use blockcheck_s.Prelude.Lists.{is_nil}
use blockcheck_s.Prelude.Dict.{lookup, has_key, contains, add}
use blockcheck_s.Job.{StrategyItem, AdaptiveJob, key}
use blockcheck_s.Weights.{ScanWeights}
use blockcheck_s.Queue.{
  Genetics, Key, AdaptiveJobQueue, drop_pending, maybe_rebuild_heap, enqueue, enqueue_many,
}
use blockcheck_s.Queue.Invariant.{
  IsValid, enqueue-IsValid, rebuild_heap-IsValid, maybe_compact_heap-IsValid, finish_job-IsValid,
}
use blockcheck_s.Queue.Results.{
  with_index, fan_out, fanout_on_pass, settle, boost, mark_done, from_item, fan_out_to,
  sibling_domains,
}
use blockcheck_s.Queue.Bulk.{
  seeded, build, new_queue, drop_flagged, filter_resume, resume_flags, matrix_jobs,
}

module _ {S : Type 0} (g : Genetics) where
  abbrev Good : AdaptiveJobQueue S → Type 0
  Good q = IsValid q []

  pub enqueue_many-IsValid :
      (q : AdaptiveJobQueue S) (jobs : List AdaptiveJob) → Good q → Good (enqueue_many g q jobs).0
  unfolding enqueue_many
  enqueue_many-IsValid q [] h = h
  enqueue_many-IsValid q (job ∷ jobs) h =
      enqueue_many-IsValid (enqueue g q job).0 jobs (enqueue-IsValid g q job h)

  fan_out_to-IsValid :
      (q : AdaptiveJobQueue S) (item : StrategyItem) (d : String)
      → Good q
      → Good (fan_out_to g q item d).0
  unfolding fan_out_to
  fan_out_to-IsValid q item d h =
      if_both {A = AdaptiveJobQueue S × Bool} (λ r. Good r.0) (contains q.excluded_domains d)
        (q, false) _ h (enqueue-IsValid g q (from_item g item d true) h)

  pub fan_out-IsValid :
      (q : AdaptiveJobQueue S) (item : StrategyItem) (ds : List String)
      → Good q
      → Good (fan_out g q item ds).0
  unfolding fan_out
  fan_out-IsValid q item [] h = h
  fan_out-IsValid q item (d ∷ ds) h =
      fan_out-IsValid (fan_out_to g q item d).0 item ds (fan_out_to-IsValid q item d h)

  with_index-IsValid : (q : AdaptiveJobQueue S) → Good q → Good (with_index g q)
  unfolding with_index
  with_index-IsValid q h =
      if_both {A = AdaptiveJobQueue S} Good (is_nil q.cluster_index && not (is_nil q.all_domains)) _
        q
        (record {
          filed = h.filed;
          all_filed = h.all_filed;
          not_finished = h.not_finished;
          covered = h.covered;
          ordered = h.ordered;
        })
        h

  pub fanout_on_pass-IsValid :
      (q : AdaptiveJobQueue S) (job : AdaptiveJob) → Good q → Good (fanout_on_pass g q job).0
  unfolding fanout_on_pass
  fanout_on_pass-IsValid q job h =
      let siblings =
        sibling_domains g job.domain q.all_domains (some (with_index g q).cluster_index) in
      let k = fan_out-IsValid (with_index g q) job.item siblings (with_index-IsValid q h) in
      if_both {A = AdaptiveJobQueue S × ℕ} (λ r. Good r.0) (is_nil q.all_domains) (q, 0) _ h
        (record {
          filed = k.filed;
          all_filed = k.all_filed;
          not_finished = k.not_finished;
          covered = k.covered;
          ordered = k.ordered;
        })

  maybe_rebuild_heap-IsValid : (q : AdaptiveJobQueue S) → Good q → Good (maybe_rebuild_heap g q)
  unfolding maybe_rebuild_heap
  maybe_rebuild_heap-IsValid q h =
      let counted : AdaptiveJobQueue S = record q {
        heap_rebuild_counter = q.heap_rebuild_counter + 1;
      } in
      let c : Good counted = record {
        filed = h.filed;
        all_filed = h.all_filed;
        not_finished = h.not_finished;
        covered = h.covered;
        ordered = h.ordered;
      } in
      let k = rebuild_heap-IsValid g counted [] c in
      if_both {A = AdaptiveJobQueue S} Good (eqb q.heap_rebuild_every 0) q _ h (
        if_both {A = AdaptiveJobQueue S} Good
          (ltb counted.heap_rebuild_counter q.heap_rebuild_every) counted _ c
          (record {
            filed = k.filed;
            all_filed = k.all_filed;
            not_finished = k.not_finished;
            covered = k.covered;
            ordered = k.ordered;
          }))

  settle-IsValid :
      (q : AdaptiveJobQueue S) (now : ℕ) (job : AdaptiveJob) (passed : Bool)
      → Good q
      → Good (settle g q now job passed)
  unfolding settle
  settle-IsValid q now job passed h =
      let k = finish_job-IsValid q (key job) [] h in
      record {
        filed = k.filed;
        all_filed = k.all_filed;
        not_finished = k.not_finished;
        covered = k.covered;
        ordered = k.ordered;
      }

  boost-IsValid : (q : AdaptiveJobQueue S) (job : AdaptiveJob) → Good q → Good (boost g q job)
  unfolding boost
  boost-IsValid q job h = maybe_compact_heap-IsValid g _ (
      maybe_rebuild_heap-IsValid _ (record {
        filed = h.filed;
        all_filed = h.all_filed;
        not_finished = h.not_finished;
        covered = h.covered;
        ordered = h.ordered;
      }))

  -- `mark_done` keeps the invariant of the queue, whatever the job and its outcome.
  pub mark_done-IsValid :
      (q : AdaptiveJobQueue S) (now : ℕ) (job : AdaptiveJob) (passed : Bool)
      → Good q
      → Good (mark_done g q now job passed).0
  unfolding mark_done
  mark_done-IsValid q now job true h =
      fanout_on_pass-IsValid (boost g (settle g q now job true) job) job
        (boost-IsValid (settle g q now job true) job (settle-IsValid q now job true h))
  mark_done-IsValid q now job false h =
      maybe_compact_heap-IsValid g (settle g q now job false) (settle-IsValid q now job false h)

  drop_flagged-IsValid :
      (q : AdaptiveJobQueue S) (flags : List (Key × Bool)) → Good q → Good (drop_flagged q flags).0
  unfolding drop_flagged
  drop_flagged-IsValid q [] h = h
  drop_flagged-IsValid q ((k, drop) ∷ flags) h =
      drop_flagged-IsValid
        (if drop && has_key k q.pending
          then drop_pending (record q { finished = add k q.finished }) k
          else q)
        flags
        (if_both {A = AdaptiveJobQueue S} Good (drop && has_key k q.pending) _ q
          (finish_job-IsValid q k [] h) h)

  -- `filter_resume` keeps the invariant of the queue, whatever the check and the size of its chunks.
  pub filter_resume-IsValid :
      (check : AdaptiveJob → Bool) (chunk_size : ℤ) (q : AdaptiveJobQueue S)
      → Good q
      → Good (filter_resume g check chunk_size q).0
  unfolding filter_resume
  filter_resume-IsValid check chunk_size q h =
      let d = drop_flagged q (resume_flags check (at_least 1 chunk_size) q.pending) in
      let k = drop_flagged-IsValid q (resume_flags check (at_least 1 chunk_size) q.pending) h in
      if_both {A = AdaptiveJobQueue S × ℕ} (λ r. Good r.0) (eqb d.1 0) (d.0, 0) _ k
        (maybe_compact_heap-IsValid g d.0 k)

  new_queue-IsValid : (w : ScanWeights) (e : ℤ) (s : S) (now : ℕ) → Good (new_queue w e s now)
  unfolding new_queue lookup
  new_queue-IsValid w e s now = record {
    filed = λ k job p. cc;
    all_filed = tt;
    not_finished = λ k p. cc;
    covered = λ k p. cc;
    ordered = tt;
  }

  module _ (skip_domains : List String) (skip_keys : List Key) (items : List StrategyItem)
      (domains : List String) (w : ScanWeights) (e : ℤ) (s : S) (now : ℕ) where
    seeded-IsValid : Good (seeded g skip_domains skip_keys items domains w e s now)
    unfolding seeded new_queue lookup
    seeded-IsValid = record {
      filed = λ k job p. cc;
      all_filed = tt;
      not_finished = λ k p. cc;
      covered = λ k p. cc;
      ordered = tt;
    }

    -- The queue that `build` makes is valid, whatever the items, the domains and what is to be skipped.
    pub build-IsValid : Good (build g skip_domains skip_keys items domains w e s now)
    unfolding build
    build-IsValid =
        let k =
          enqueue_many-IsValid (seeded g skip_domains skip_keys items domains w e s now)
            (matrix_jobs g skip_domains skip_keys items domains) seeded-IsValid in
        record {
          filed = k.filed;
          all_filed = k.all_filed;
          not_finished = k.not_finished;
          covered = k.covered;
          ordered = k.ordered;
        }

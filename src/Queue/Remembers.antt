-- ===== src/Queue/Remembers.antt =====
-- No method of the queue of src/blockchecks/engine/adaptive_queue.py takes a key out of `self._done`.
use blockcheck_s.Prelude.{
  ℕ, ◌+◌, Bool, true, false, ◌&&◌, ◌||◌, String, some, List, [], ◌∷◌, string_eq, pair_eq, ltb, eqb,
  if◌then◌else◌, ◌≡◌, arith, if_both, ==_refl,
}
use blockcheck_s.Prelude.Int.{ℤ, at_least}
use blockcheck_s.Prelude.Lists.{is_nil}
use blockcheck_s.Prelude.Dict.{has_key, contains, add, contains-add}
use blockcheck_s.Job.{StrategyItem, AdaptiveJob, key}
use blockcheck_s.Queue.{
  Genetics, Key, AdaptiveJobQueue, drop_pending, push_entry, rebuild_heap, maybe_compact_heap,
  maybe_rebuild_heap, enqueue,
}
use blockcheck_s.Queue.Invariant.{finished-drop_pending}
use blockcheck_s.Queue.Results.{
  with_index, fan_out, fan_out_to, fanout_on_pass, settle, boost, mark_done, from_item,
  sibling_domains,
}
use blockcheck_s.Queue.Bulk.{drop_flagged, filter_resume, resume_flags}

module _ {S : Type 0} (g : Genetics) (done : List Key) where
  -- `q` knows every key of `done`.
  abbrev pub Knows : AdaptiveJobQueue S → Type 0
  Knows q = (k : Key) → contains done k ≡ true → contains q.finished k ≡ true

  pub maybe_compact_heap-Knows : (q : AdaptiveJobQueue S) → Knows q → Knows (maybe_compact_heap g q)
  unfolding maybe_compact_heap rebuild_heap
  maybe_compact_heap-Knows q h = if_both {A = AdaptiveJobQueue S} Knows _ _ q h h

  maybe_rebuild_heap-Knows : (q : AdaptiveJobQueue S) → Knows q → Knows (maybe_rebuild_heap g q)
  unfolding maybe_rebuild_heap rebuild_heap
  maybe_rebuild_heap-Knows q h =
      if_both {A = AdaptiveJobQueue S} Knows (eqb q.heap_rebuild_every 0) q _ h (
        if_both {A = AdaptiveJobQueue S} Knows
          (ltb (q.heap_rebuild_counter + 1) q.heap_rebuild_every) _ _ h h)

  pub enqueue-Knows :
      (q : AdaptiveJobQueue S) (job : AdaptiveJob) → Knows q → Knows (enqueue g q job).0
  unfolding enqueue push_entry
  enqueue-Knows q job h =
      if_both {A = AdaptiveJobQueue S × Bool} (λ r. Knows r.0)
        (has_key (key job) q.pending || contains q.finished (key job)) (q, false) _ h h

  finish-Knows :
      (q : AdaptiveJobQueue S) (k : Key)
      → Knows q
      → Knows (drop_pending (record q { finished = add k q.finished }) k)
  finish-Knows q k h j e =
      let marked : AdaptiveJobQueue S = record q { finished = add k q.finished } in
      ground (arith, h j e, finished-drop_pending marked k, contains-add k j q.finished)

  fan_out-Knows :
      (q : AdaptiveJobQueue S) (item : StrategyItem) (ds : List String)
      → Knows q
      → Knows (fan_out g q item ds).0
  unfolding fan_out fan_out_to
  fan_out-Knows q item [] h = h
  fan_out-Knows q item (d ∷ ds) h = fan_out-Knows (fan_out_to g q item d).0 item ds (
      if_both {A = AdaptiveJobQueue S × Bool} (λ r. Knows r.0) (contains q.excluded_domains d)
        (q, false) _ h (enqueue-Knows q (from_item g item d true) h))

  with_index-Knows : (q : AdaptiveJobQueue S) → Knows q → Knows (with_index g q)
  unfolding with_index
  with_index-Knows q h = if_both {A = AdaptiveJobQueue S} Knows _ _ q h h

  fanout_on_pass-Knows :
      (q : AdaptiveJobQueue S) (job : AdaptiveJob) → Knows q → Knows (fanout_on_pass g q job).0
  unfolding fanout_on_pass
  fanout_on_pass-Knows q job h =
      let siblings =
        sibling_domains g job.domain q.all_domains (some (with_index g q).cluster_index) in
      if_both {A = AdaptiveJobQueue S × ℕ} (λ r. Knows r.0) (is_nil q.all_domains) (q, 0) _ h
        (fan_out-Knows (with_index g q) job.item siblings (with_index-Knows q h))

  pub mark_done-Knows :
      (q : AdaptiveJobQueue S) (now : ℕ) (job : AdaptiveJob) (passed : Bool)
      → Knows q
      → Knows (mark_done g q now job passed).0
  unfolding mark_done settle boost
  mark_done-Knows q now job true h =
      fanout_on_pass-Knows _ job
        (maybe_compact_heap-Knows _ (maybe_rebuild_heap-Knows _ (finish-Knows q (key job) h)))
  mark_done-Knows q now job false h = maybe_compact_heap-Knows _ (finish-Knows q (key job) h)

  drop_flagged-Knows :
      (q : AdaptiveJobQueue S) (flags : List (Key × Bool))
      → Knows q
      → Knows (drop_flagged q flags).0
  unfolding drop_flagged
  drop_flagged-Knows q [] h = h
  drop_flagged-Knows q ((k, drop) ∷ flags) h =
      drop_flagged-Knows
        (if drop && has_key k q.pending
          then drop_pending (record q { finished = add k q.finished }) k
          else q)
        flags
        (if_both {A = AdaptiveJobQueue S} Knows (drop && has_key k q.pending) _ q
          (finish-Knows q k h) h)

  pub filter_resume-Knows :
      (check : AdaptiveJob → Bool) (chunk_size : ℤ) (q : AdaptiveJobQueue S)
      → Knows q
      → Knows (filter_resume g check chunk_size q).0
  unfolding filter_resume
  filter_resume-Knows check chunk_size q h =
      let d = drop_flagged q (resume_flags check (at_least 1 chunk_size) q.pending) in
      let k = drop_flagged-Knows q (resume_flags check (at_least 1 chunk_size) q.pending) h in
      if_both {A = AdaptiveJobQueue S × ℕ} (λ r. Knows r.0) (eqb d.1 0) (d.0, 0) _ k
        (maybe_compact_heap-Knows d.0 k)

  pub drop_pending-Knows : (q : AdaptiveJobQueue S) (k : Key) → Knows q → Knows (drop_pending q k)
  drop_pending-Knows q k h j e = ground (arith, h j e, finished-drop_pending q k)

-- `mark_done` marks the key of its job.
pub mark_done-finished :
    {S : Type 0} (g : Genetics) (q : AdaptiveJobQueue S) (now : ℕ) (job : AdaptiveJob)
    (passed : Bool)
    → contains (mark_done g q now job passed).0.finished (key job) ≡ true
unfolding mark_done settle boost contains
mark_done-finished {S} g q now job passed =
    let k = key job in
    let marked : AdaptiveJobQueue S = record q { finished = add k q.finished } in
    let knows : Knows g (k ∷ []) (drop_pending marked k) =
      λ j e. ground (arith, e, finished-drop_pending marked k, contains-add k j q.finished) in
    let itself : contains (k ∷ []) k ≡ true = ground (arith, ==_refl k) in
    elim passed as (λ b. contains (mark_done g q now job b).0.finished k ≡ true) [
      | true ↦
          fanout_on_pass-Knows g (k ∷ []) _ job
            (maybe_compact_heap-Knows g (k ∷ []) _ (maybe_rebuild_heap-Knows g (k ∷ []) _ knows)) k
            itself
      | false ↦ maybe_compact_heap-Knows g (k ∷ []) _ knows k itself
    ]

-- ===== src/Queue/Invariant.antt =====
-- The invariant of the queue of src/blockchecks/engine/adaptive_queue.py: jobs are filed under their
-- keys, no finished key is pending, and the heap has an entry for every pending key.
use blockcheck_s.Prelude.{
  ℕ, ◌+◌, Bool, true, false, ◌||◌, none, some, List, [], ◌∷◌, string_eq, pair_eq, ◌==◌,
  if◌then◌else◌, ==_iff, ◌≡◌, refl, arith, if_both, if_split, option_split,
}
use blockcheck_s.Prelude.Lists.{All}
use blockcheck_s.Prelude.Dict.{
  lookup, has_key, contains, add, lookup-insert, lookup-erase, contains-add, All-insert, All-erase,
}
use blockcheck_s.Job.{AdaptiveJob, key}
use blockcheck_s.Weights.{ScanWeights}
use blockcheck_s.Queue.{
  Genetics, Key, AdaptiveJobQueue, job_priority, push_entry, drop_pending, refresh, rebuilt,
  rebuild_heap, maybe_compact_heap, enqueue,
}
use blockcheck_s.Queue.Heap.{
  HeapEntry, has_entry, has_entry-push_heap, IsOrdered, IsOrdered-push_heap,
}

abbrev pub IsFiled : Key × AdaptiveJob → Type 0
IsFiled p = key p.1 ≡ p.0

-- `extra` holds the entries that a loop has taken off the heap for a while.
pub record IsValid {S : Type 0} (q : AdaptiveJobQueue S) (extra : List HeapEntry) : Type 0 where
  pub filed : (k : Key) (job : AdaptiveJob) → lookup k q.pending ≡ some job → key job ≡ k
  pub all_filed : All IsFiled q.pending
  pub not_finished : (k : Key) → has_key k q.pending ≡ true → contains q.finished k ≡ false
  pub covered :
      (k : Key) → has_key k q.pending ≡ true → (has_entry k q.heap || has_entry k extra) ≡ true
  pub ordered : IsOrdered q.heap

module _ {S : Type 0} (q : AdaptiveJobQueue S) where
  pub lookup-drop_pending :
      (k j : Key)
      → lookup j (drop_pending q k).pending ≡ (if k == j then none else lookup j q.pending)
  unfolding drop_pending
  lookup-drop_pending k j = grind (arith, lookup-erase k j q.pending, ==_iff k j)

  pub finished-drop_pending : (k : Key) → (drop_pending q k).finished ≡ q.finished
  unfolding drop_pending
  finished-drop_pending k = ground arith

  pub heap-drop_pending : (k : Key) → (drop_pending q k).heap ≡ q.heap
  unfolding drop_pending
  heap-drop_pending k = ground arith

  pub excluded-drop_pending : (k : Key) → (drop_pending q k).excluded_domains ≡ q.excluded_domains
  unfolding drop_pending
  excluded-drop_pending k = ground arith

  pub weights-drop_pending : (k : Key) → (drop_pending q k).weights ≡ q.weights
  unfolding drop_pending
  weights-drop_pending k = ground arith

  pub All-drop_pending : (k : Key) → All IsFiled q.pending → All IsFiled (drop_pending q k).pending
  unfolding drop_pending
  All-drop_pending k h =
      option_split {B = AdaptiveJobQueue S} (λ r. All IsFiled r.pending) (lookup k q.pending) q _
        (λ gone. h) (λ job found. All-erase IsFiled k q.pending h)

  pub drop_pending-IsValid :
      (k : Key) (extra : List HeapEntry) → IsValid q extra → IsValid (drop_pending q k) extra
  drop_pending-IsValid k extra h = record {
    filed = λ j job e. ground (arith, lookup-drop_pending k j, h.filed j job);
    all_filed = All-drop_pending k h.all_filed;
    not_finished =
        λ j e. ground (arith, lookup-drop_pending k j, h.not_finished j, finished-drop_pending k);
    covered = λ j e. ground (arith, lookup-drop_pending k j, h.covered j, heap-drop_pending k);
    ordered = rw (heap-drop_pending k) h.ordered;
  }

has_entry-rebuilt :
    (g : Genetics) (w : ScanWeights) (k : Key) (n : ℕ) (m : List (Key × AdaptiveJob))
    → has_entry k (rebuilt g w n m) ≡ has_key k m
unfolding rebuilt has_entry lookup
has_entry-rebuilt g w k n [] = refl
has_entry-rebuilt g w k n ((j, job) ∷ m) = ground (
  arith,
  has_entry-rebuilt g w k (n + 1) m,
  has_entry-push_heap k (record { priority = job_priority g w job; seq = n; key = j })
      (rebuilt g w (n + 1) m),
)

IsOrdered-rebuilt :
    (g : Genetics) (w : ScanWeights) (n : ℕ) (m : List (Key × AdaptiveJob))
    → IsOrdered (rebuilt g w n m)
unfolding rebuilt
IsOrdered-rebuilt g w n [] = tt
IsOrdered-rebuilt g w n ((j, job) ∷ m) =
    IsOrdered-push_heap (record { priority = job_priority g w job; seq = n; key = j })
      (rebuilt g w (n + 1) m) (IsOrdered-rebuilt g w (n + 1) m)

module _ {S : Type 0} (g : Genetics) (q : AdaptiveJobQueue S) where
  pub refresh-IsValid :
      (job : AdaptiveJob) (extra : List HeapEntry)
      → IsValid q extra
      → IsValid (refresh g q job) extra
  unfolding refresh push_entry
  refresh-IsValid job extra h = record {
    filed = h.filed;
    all_filed = h.all_filed;
    not_finished = h.not_finished;
    covered = λ k e. grind (arith, h.covered k, has_entry-push_heap);
    ordered = IsOrdered-push_heap _ q.heap h.ordered;
  }

  -- A rebuilt heap has an entry for each pending job, whatever it had before.
  pub rebuild_heap-IsValid :
      (extra : List HeapEntry) → IsValid q extra → IsValid (rebuild_heap g q) []
  unfolding rebuild_heap has_entry
  rebuild_heap-IsValid extra h = record {
    filed = h.filed;
    all_filed = h.all_filed;
    not_finished = h.not_finished;
    covered = λ k e. ground (arith, has_entry-rebuilt g q.weights k q.seq q.pending);
    ordered = IsOrdered-rebuilt g q.weights q.seq q.pending;
  }

  pub maybe_compact_heap-IsValid : IsValid q [] → IsValid (maybe_compact_heap g q) []
  unfolding maybe_compact_heap
  maybe_compact_heap-IsValid h =
      if_both {A = AdaptiveJobQueue S} (λ r. IsValid r []) _ (rebuild_heap g q) q
        (rebuild_heap-IsValid [] h) h

  pub enqueue-IsValid : (job : AdaptiveJob) → IsValid q [] → IsValid (enqueue g q job).0 []
  unfolding enqueue push_entry has_entry
  enqueue-IsValid job h =
      if_split {A = AdaptiveJobQueue S × Bool} (λ r. IsValid r.0 [])
        (has_key (key job) q.pending || contains q.finished (key job)) (q, false) _ (λ old. h)
        (λ new. record {
          filed = λ k j e. grind (arith, h.filed k j, lookup-insert, ==_iff (key job) k);
          all_filed = All-insert IsFiled (key job) job q.pending refl h.all_filed;
          not_finished =
              λ k e. grind (arith, h.not_finished k, lookup-insert, ==_iff (key job) k, new);
          covered = λ k e. grind (arith, h.covered k, lookup-insert, has_entry-push_heap);
          ordered = IsOrdered-push_heap _ q.heap h.ordered;
        })

-- The drop of a job together with the mark that it is finished.
pub finish_job-IsValid :
    {S : Type 0} (q : AdaptiveJobQueue S) (k : Key) (extra : List HeapEntry)
    → IsValid q extra
    → IsValid (drop_pending (record q { finished = add k q.finished }) k) extra
finish_job-IsValid {S} q k extra h =
    let q' : AdaptiveJobQueue S = record q { finished = add k q.finished } in
    record {
      filed = λ j job e. ground (arith, lookup-drop_pending q' k j, h.filed j job);
      all_filed = All-drop_pending q' k h.all_filed;
      not_finished = λ j e. ground (
        arith,
        lookup-drop_pending q' k j,
        h.not_finished j,
        finished-drop_pending q' k,
        contains-add k j q.finished,
        ==_iff k j,
      );
      covered =
          λ j e. ground (arith, lookup-drop_pending q' k j, h.covered j, heap-drop_pending q' k);
      ordered = rw (heap-drop_pending q' k) h.ordered;
    }

-- ===== src/Queue.antt =====
-- `AdaptiveJobQueue` of src/blockchecks/engine/adaptive_queue.py: its state, `enqueue`, and the small
-- methods. `pop` stands in Queue/Pop, what follows a result in Queue/Results, `build`, `pop_batch`
-- and `filter_resume` in Queue/Bulk.
--
-- `heapq` keeps the least entry in front; here the list is kept in order, so that the front is what
-- `heappop` returns. The order of entries is by priority, greatest first, and then by number: the
-- source stores the priority negated. No two entries have one number, so the order of equal entries
-- does not matter. A set is a list, and a dict a list of pairs in insertion order.
pub mod Heap
pub mod Pop
pub mod Results
pub mod Bulk
pub mod Invariant
pub mod Keeps
pub mod Promise
pub mod Popping
pub mod Rounds
pub mod Exploring
pub mod Popped
pub mod Remembers
pub mod Taking
pub mod Batches
pub mod Metrics
pub mod Session
pub mod Fanouts
mod Tests
use blockcheck_s.Prelude.{
  ℕ, zero, suc, ◌+◌, ◌*◌, Bool, true, false, ◌&&◌, ◌||◌, not, max, String, Option, none, some, List,
  [], ◌∷◌, string_eq, pair_eq, ltb, eqb, ◌==◌, if◌then◌else◌,
}
use blockcheck_s.Prelude.Int.{ℤ, at_least}
use blockcheck_s.Prelude.Lists.{length}
use blockcheck_s.Prelude.Dict.{lookup, insert, erase, has_key, contains, add, discard}
use blockcheck_s.Job.{StrategyItem, AdaptiveJob, key}
use blockcheck_s.Weights
use blockcheck_s.Weights.{ScanWeights}
use blockcheck_s.Queue.Heap.{HeapEntry, push_heap}

-- What the queue takes from other modules: `classify_strategy_family`, `extract_blob_hints`,
-- `strategy_traits` and `cluster_domain`.
pub record Genetics : Type 0 where
  pub family : StrategyItem → String
  pub blobs : String → List String
  pub traits : String → List String
  pub cluster : String → String

-- `random.Random`: `explore` is the outcome of `random() < epsilon`, and `one_in n` that of
-- `randint(1, n) == 1`.
pub record Random : Type 1 where
  pub State : Type 0
  pub explore : ℕ → State → Bool × State
  pub one_in : ℕ → State → Bool × State

pub record AdaptiveMetrics : Type 0 where
  pub total_enqueued : ℕ
  pub jobs_run : ℕ
  pub jobs_passed : ℕ
  pub fanout_enqueued : ℕ
  pub started_at : ℕ
  pub first_pass_at : Option ℕ
  pub passes_before_half : ℕ
  pub half_mark_jobs : ℕ

abbrev pub Key : Type 0
Key = String × String

-- `S` is the state of the random numbers. `epsilon` is in thousandths.
pub record AdaptiveJobQueue (S : Type 0) : Type 0 where
  pub weights : ScanWeights
  pub epsilon : ℕ
  pub rng : S
  pub seq : ℕ
  pub heap : List HeapEntry
  pub pending : List (Key × AdaptiveJob)
  pub by_label : List (String × List Key)
  pub finished : List Key
  pub all_domains : List String
  pub cluster_index : List (String × List String)
  pub excluded_domains : List String
  pub metrics : AdaptiveMetrics
  pub heap_rebuild_every : ℕ
  pub heap_rebuild_counter : ℕ
  pub rebuild_heap_calls : ℕ

-- `self._by_label[label]` of a defaultdict
abbrev pub labelled : List (String × List Key) → String → List Key
labelled m label = elim (lookup label m) [ none ↦ [] | some ks ↦ ks ]

module _ {S : Type 0} where
  -- `_push_heap`
  unfoldable pub push_entry : AdaptiveJobQueue S → Key → ℕ → AdaptiveJobQueue S
  push_entry q k priority = record q {
    seq = q.seq + 1;
    heap = push_heap (record { priority = priority; seq = q.seq + 1; key = k }) q.heap;
  }

  -- `_drop_pending`, without its result, which is `q.pending.get(key)`
  unfoldable pub drop_pending : AdaptiveJobQueue S → Key → AdaptiveJobQueue S
  drop_pending q k = elim (lookup k q.pending) [
    | none ↦ q
    | some job ↦ record q {
      pending = erase k q.pending;
      by_label = insert job.item.label (discard k (labelled q.by_label job.item.label)) q.by_label;
    }
  ]

  -- `configure_heap_rebuild`
  unfoldable pub configure_heap_rebuild : AdaptiveJobQueue S → ℤ → AdaptiveJobQueue S
  configure_heap_rebuild q every = record q {
    heap_rebuild_every = at_least 0 every;
    heap_rebuild_counter = 0;
  }

module _ (g : Genetics) where
  -- `_job_priority`
  unfoldable pub job_priority : ScanWeights → AdaptiveJob → ℕ
  job_priority w job =
      Weights.get w job.family (g.blobs job.item.strategy) (g.traits job.item.strategy)

  -- The loop of `_rebuild_heap`: `number` is `self._seq + i`.
  unfoldable pub rebuilt : ScanWeights → ℕ → List (Key × AdaptiveJob) → List HeapEntry
  rebuilt w number [] = []
  rebuilt w number ((k, job) ∷ m) =
      push_heap (record { priority = job_priority w job; seq = number; key = k })
        (rebuilt w (number + 1) m)

module _ {S : Type 0} (g : Genetics) where
  -- `_entry_stale`
  unfoldable pub entry_stale : AdaptiveJobQueue S → HeapEntry → AdaptiveJob → Bool
  entry_stale q entry job = not (eqb entry.priority (job_priority g q.weights job))

  -- `_refresh_stale_entry`
  unfoldable pub refresh : AdaptiveJobQueue S → AdaptiveJob → AdaptiveJobQueue S
  refresh q job = push_entry q (key job) (job_priority g q.weights job)

  -- `_rebuild_heap`
  unfoldable pub rebuild_heap : AdaptiveJobQueue S → AdaptiveJobQueue S
  rebuild_heap q = record q {
    rebuild_heap_calls = q.rebuild_heap_calls + 1;
    heap = rebuilt g q.weights q.seq q.pending;
    seq = q.seq + length q.pending;
  }

  -- `_maybe_compact_heap`
  unfoldable pub maybe_compact_heap : AdaptiveJobQueue S → AdaptiveJobQueue S
  maybe_compact_heap q =
      let rebuilt_q = rebuild_heap q in
      if not (eqb (length q.pending) 0) && ltb (length q.pending * 2 + 512) (length q.heap)
      then rebuilt_q
      else q

  -- `enqueue`
  unfoldable pub enqueue : AdaptiveJobQueue S → AdaptiveJob → AdaptiveJobQueue S × Bool
  enqueue q job =
      if has_key (key job) q.pending || contains q.finished (key job) then (q, false) else (
        let q' =
              push_entry
                (record q {
                  pending = insert (key job) job q.pending;
                  by_label =
                      insert job.item.label (add (key job) (labelled q.by_label job.item.label))
                        q.by_label;
                })
                (key job) (job_priority g q.weights job) in
            record q' {
              metrics = record q.metrics { total_enqueued = q.metrics.total_enqueued + 1 };
            },
        true,
      )

  -- `enqueue_many`: the number of jobs added.
  unfoldable pub enqueue_many : AdaptiveJobQueue S → List AdaptiveJob → AdaptiveJobQueue S × ℕ
  enqueue_many q [] = (q, 0)
  enqueue_many q (job ∷ jobs) =
      let (q', added) = enqueue q job in
      let (q'', n) = enqueue_many q' jobs in (q'', if added then suc n else n)

  -- `_maybe_rebuild_heap`
  unfoldable pub maybe_rebuild_heap : AdaptiveJobQueue S → AdaptiveJobQueue S
  maybe_rebuild_heap q =
      if eqb q.heap_rebuild_every 0
      then q
      else let counted = record q { heap_rebuild_counter = q.heap_rebuild_counter + 1 } in
        if ltb counted.heap_rebuild_counter q.heap_rebuild_every
        then counted
        else record (rebuild_heap counted) { heap_rebuild_counter = 0 }

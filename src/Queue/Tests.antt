-- ===== src/Queue/Tests.antt =====
-- The queue of src/blockchecks/engine/adaptive_queue.py at small inputs.
use blockcheck_s.Prelude.{
  ℕ, ◌+◌, true, false, String, Option, none, some, List, [], ◌∷◌, eqb, string_eq, pair_eq, ◌≡◌,
  refl,
}
use blockcheck_s.Prelude.Int.{pos}
use blockcheck_s.Job.{StrategyItem, AdaptiveJob}
use blockcheck_s.Weights
use blockcheck_s.Weights.{get, get_or, total, raise, raise_all, boost_pass}
use blockcheck_s.Prelude.Dict.{lookup, insert, erase, contains, add, discard}
use blockcheck_s.Queue.Heap.{entry_before, push_heap, push_all}
use blockcheck_s.Queue.{
  Genetics, Random, Key, AdaptiveJobQueue, maybe_compact_heap, maybe_rebuild_heap, drop_pending,
  enqueue, enqueue_many, entry_stale, job_priority, push_entry, rebuild_heap, rebuilt, refresh,
}
use blockcheck_s.Queue.Pop.{
  pop, draw, pop_loop, discard_job, take_job, visit, round, pop_skipped, reservoir,
  epsilon_pick_key, pop_random,
}
use blockcheck_s.Queue.Results.{
  mark_done, from_item, settle, boost, with_index, fanout_on_pass, fan_out, fan_out_to, others,
  others_in, record_run, set_half_mark, cluster_domain_index, index_from, sibling_domains,
}
use blockcheck_s.Queue.Bulk.{
  build, pop_batch, seeded, new_queue, matrix_jobs, item_jobs, all_skips, item_skips,
}
use blockcheck_s.Queue.Batches.{Batches, pop_batch-Batches}
use blockcheck_s.Queue.Fanouts.{IsFannedOut, sibling_domains-index, fan_out_lem}
use blockcheck_s.Queue.Session.{marks, Reaches, here, next, done_stays_done}
use blockcheck_s.Queue.Invariant.{IsValid}
use blockcheck_s.Queue.Keeps.{build-IsValid}
use blockcheck_s.Queue.Popped.{Pops, pop-Pops}

abbrev genetics : Genetics
genetics = record {
  family = λ item. item.protocol;
  blobs = λ s. s ∷ [];
  traits = λ s. [];
  cluster = λ d. "one";
}

abbrev random : Random
random = record {
  State = ℕ;
  explore = λ epsilon s. (eqb s 0, s + 1);
  one_in = λ n s. (eqb n 1, s + 1);
}

abbrev item : String → StrategyItem
item label = record { label = label; strategy = label; is_config = false; protocol = "tls12" }

abbrev items : List StrategyItem
items = item "fake" ∷ item "split" ∷ []

abbrev domains : List String
domains = "a.com" ∷ "b.com" ∷ "c.com" ∷ []

abbrev queue : AdaptiveJobQueue ℕ
queue =
    build genetics ("c.com" ∷ []) (("fake", "b.com") ∷ []) items domains Weights.fresh (pos 100) 0 0

abbrev queue_valid : IsValid queue []
queue_valid =
    build-IsValid genetics ("c.com" ∷ []) (("fake", "b.com") ∷ []) items domains Weights.fresh
      (pos 100) 0 0

abbrev job : AdaptiveJob
job = from_item genetics (item "split") "a.com" false

pop-Pops_example : Pops genetics random (λ s. refl) queue (pop random genetics queue ("a.com" ∷ []))
pop-Pops_example = pop-Pops genetics random (λ s. refl) queue ("a.com" ∷ []) queue_valid

pop_batch-Batches_example :
    Batches genetics random
      (λ s. refl)
      (pos 3)
      "tls12"
      true
      queue
      (pop_batch random genetics queue (pos 3) "tls12" true)
pop_batch-Batches_example =
    pop_batch-Batches genetics random (λ s. refl) (pos 3) "tls12" true queue queue_valid

-- One strategy on one domain is marked done; another is left.
abbrev after : AdaptiveJobQueue ℕ
after = (mark_done genetics queue 7 job false).0

abbrev reached : Reaches genetics random queue after
reached = next queue after after (marks queue 7 job false) (here after)

abbrev last : AdaptiveJobQueue ℕ
last = elim (pop random genetics after []) [ none ↦ after | some r ↦ r.0 ]

pops_after :
    pop random genetics after []
    ≡ some (last, some (from_item genetics (item "fake") "a.com" false))
unfolding pop draw pop_loop mark_done maybe_compact_heap settle drop_pending lookup build
    enqueue_many matrix_jobs item_jobs contains enqueue seeded new_queue all_skips item_skips add
    from_item discard erase insert entry_before push_all push_heap discard_job epsilon_pick_key
    pop_random pop_skipped reservoir round take_job visit record_run set_half_mark
    cluster_domain_index index_from entry_stale job_priority push_entry rebuild_heap rebuilt refresh
    get get_or total
pops_after = refl

done_stays_done_example :
    IsValid after []
    × ((k : Key) → contains queue.finished k ≡ true → contains after.finished k ≡ true)
    × (contains queue.finished ("fake", "a.com") ≡ false)
unfolding from_item
done_stays_done_example =
    done_stays_done genetics random (λ s. refl) queue.finished queue after last []
      (from_item genetics (item "fake") "a.com" false) (queue_valid, λ k e. e) reached pops_after

sibling_domains-index_example :
    sibling_domains genetics "b.com" domains (some (cluster_domain_index genetics domains))
    ≡ sibling_domains genetics "b.com" domains none
sibling_domains-index_example = sibling_domains-index genetics "b.com" domains

fan_out_lem_example : IsFannedOut genetics queue (item "fake") domains "fake" "b.com"
fan_out_lem_example = fan_out_lem genetics queue (item "fake") domains "fake" "b.com"

-- Three strategies of two families; one of the second family passes, which raises the other.
abbrev of_family : String → String → StrategyItem
of_family label protocol = record {
  label = label;
  strategy = label;
  is_config = false;
  protocol = protocol;
}

abbrev boosted : AdaptiveJobQueue ℕ
boosted =
    let second = from_item genetics (of_family "z" "quic") "a.com" false in
    (mark_done genetics
      (build genetics [] []
        (of_family "x" "tls12" ∷ of_family "y" "quic" ∷ of_family "z" "quic" ∷ []) ("a.com" ∷ [])
        Weights.fresh (pos 0) 0 0)
      7 second true).0

-- The old entries stay in the heap, and an old one in front that is still right is taken: `pop` takes
-- the job of the lower priority.
abbrev first_popped : Option (String × ℕ)
first_popped = elim (pop random genetics boosted []) [
  | none ↦ none
  | some r ↦ elim r.1 [
    | none ↦ none
    | some j ↦ some (j.item.label, job_priority genetics boosted.weights j)
  ]
]

low_first :
    (first_popped ≡ some ("x", 10))
    × (job_priority genetics boosted.weights
          (from_item genetics (of_family "y" "quic") "a.com" false)
        ≡ 20)
unfolding pop draw pop_loop mark_done maybe_compact_heap maybe_rebuild_heap settle boost
    drop_pending lookup build enqueue_many matrix_jobs item_jobs contains enqueue seeded new_queue
    all_skips item_skips add from_item discard erase insert entry_before push_all push_heap
    discard_job epsilon_pick_key pop_random pop_skipped reservoir round take_job visit record_run
    set_half_mark cluster_domain_index index_from entry_stale job_priority push_entry rebuild_heap
    rebuilt refresh get get_or total raise raise_all boost_pass with_index fanout_on_pass fan_out
    fan_out_to sibling_domains others others_in
low_first = (refl, refl)

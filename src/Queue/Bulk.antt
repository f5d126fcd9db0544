-- ===== src/Queue/Bulk.antt =====
-- The methods of `AdaptiveJobQueue` in src/blockchecks/engine/adaptive_queue.py that handle many jobs:
-- `build`, `pop_batch` and `filter_resume`.
use blockcheck_s.Prelude.{
  ℕ, suc, ◌-◌, Bool, false, ◌&&◌, ◌||◌, not, String, Option, none, some, List, [], ◌∷◌, ◌++◌, map,
  string_eq, pair_eq, eqb, ◌==◌, if◌then◌else◌,
}
use blockcheck_s.Prelude.Int.{ℤ, at_least, clamp_ℤ, leb_ℤ}
use blockcheck_s.Prelude.Lists.{length, chunks, flatten}
use blockcheck_s.Prelude.Dict.{lookup, has_key, contains, add}
use blockcheck_s.Job.{StrategyItem, AdaptiveJob}
use blockcheck_s.Weights.{ScanWeights}
use blockcheck_s.Fanout.{CurlProfile, curl_profile, profiles_compatible}
use blockcheck_s.Queue.{
  Genetics, Random, Key, AdaptiveJobQueue, labelled, drop_pending, enqueue_many, maybe_compact_heap,
}
use blockcheck_s.Queue.Pop.{pop}
use blockcheck_s.Queue.Results.{cluster_domain_index, from_item, set_half_mark}

-- The constructor, at the time `now`.
unfoldable pub new_queue : {S : Type 0} → ScanWeights → ℤ → S → ℕ → AdaptiveJobQueue S
new_queue weights epsilon rng now = record {
  weights = weights;
  epsilon = clamp_ℤ 0 1000 epsilon;
  rng = rng;
  seq = 0;
  heap = [];
  pending = [];
  by_label = [];
  finished = [];
  all_domains = [];
  cluster_index = [];
  excluded_domains = [];
  metrics = record {
    total_enqueued = 0;
    jobs_run = 0;
    jobs_passed = 0;
    fanout_enqueued = 0;
    started_at = now;
    first_pass_at = none;
    passes_before_half = 0;
    half_mark_jobs = 0;
  };
  heap_rebuild_every = 0;
  heap_rebuild_counter = 0;
  rebuild_heap_calls = 0;
}

-- The resume keys of one item, `(item.label, dom) for dom in domains if … in skip_keys`.
unfoldable pub item_skips : List Key → StrategyItem → List String → List Key → List Key
item_skips skip_keys item [] done = done
item_skips skip_keys item (d ∷ ds) done =
    item_skips skip_keys item ds
      (if contains skip_keys (item.label, d) then add (item.label, d) done else done)

unfoldable pub all_skips : List Key → List StrategyItem → List String → List Key → List Key
all_skips skip_keys [] domains done = done
all_skips skip_keys (item ∷ items) domains done =
    all_skips skip_keys items domains (item_skips skip_keys item domains done)

module _ (g : Genetics) (skip_domains : List String) (skip_keys : List Key) where
  -- The jobs of one item.
  unfoldable pub item_jobs : StrategyItem → List String → List AdaptiveJob
  item_jobs item [] = []
  item_jobs item (d ∷ ds) =
      let rest = item_jobs item ds in
      if not (contains skip_domains d) && not (contains skip_keys (item.label, d))
      then from_item g item d false ∷ rest
      else rest

  unfoldable pub matrix_jobs : List StrategyItem → List String → List AdaptiveJob
  matrix_jobs [] domains = []
  matrix_jobs (item ∷ items) domains = item_jobs item domains ++ matrix_jobs items domains

  -- The queue of `build` before the jobs are added.
  unfoldable pub seeded :
      {S : Type 0} → List StrategyItem → List String → ScanWeights → ℤ → S → ℕ → AdaptiveJobQueue S
  seeded items domains weights epsilon rng now = record (new_queue weights epsilon rng now) {
    all_domains = domains;
    cluster_index = cluster_domain_index g domains;
    excluded_domains = skip_domains;
    finished = all_skips skip_keys items domains [];
  }

  -- `build`
  unfoldable pub build :
      {S : Type 0} → List StrategyItem → List String → ScanWeights → ℤ → S → ℕ → AdaptiveJobQueue S
  build items domains weights epsilon rng now =
      let q =
        (enqueue_many g (seeded items domains weights epsilon rng now)
          (matrix_jobs items domains)).0 in
      record q { metrics = set_half_mark q.metrics q.metrics.total_enqueued }

-- Whether the batch of `first` may take a job of the domain.
unfoldable pub is_wanted : (String → CurlProfile) → AdaptiveJob → String → Bool
is_wanted profile first d =
    not (d == first.domain) && profiles_compatible (profile first.domain) (profile d)

module _ {S : Type 0} where
  -- The loop of `pending_domains_for_strategy`.
  unfoldable pub domains_of : AdaptiveJobQueue S → List Key → List String
  domains_of q [] = []
  domains_of q (k ∷ ks) =
      let rest = domains_of q ks in
      elim (lookup k q.pending) [ none ↦ rest | some job ↦ job.domain ∷ rest ]

  -- `pending_domains_for_strategy`, in the order in which the set of keys is read
  unfoldable pub pending_domains_for_strategy : AdaptiveJobQueue S → String → List String
  pending_domains_for_strategy q label = domains_of q (labelled q.by_label label)

  -- The jobs that it takes: one at most.
  unfoldable pub taken_at :
      (String → CurlProfile) → AdaptiveJob → AdaptiveJobQueue S → String → List AdaptiveJob
  taken_at profile first q d = elim (lookup (first.item.label, d) q.pending) [
    | none ↦ []
    | some job ↦ if is_wanted profile first d then job ∷ [] else []
  ]

  -- The loop of `pop_batch`: `room` is the number of jobs that the batch may still take.
  unfoldable pub fill_batch :
      (String → CurlProfile)
      → AdaptiveJob
      → ℕ
      → AdaptiveJobQueue S
      → List String
      → AdaptiveJobQueue S × List AdaptiveJob
  fill_batch profile first room q [] = (q, [])
  fill_batch profile first room q (d ∷ ds) =
      let taken = taken_at profile first q d in
      let q' = if is_wanted profile first d then drop_pending q (first.item.label, d) else q in
      let (q'', more) = fill_batch profile first (room - length taken) q' ds in
      if eqb room 0 then (q, []) else (q'', taken ++ more)

  -- The last loop of `filter_resume`: the keys of the snapshot with the answers of the check.
  unfoldable pub drop_flagged : AdaptiveJobQueue S → List (Key × Bool) → AdaptiveJobQueue S × ℕ
  drop_flagged q [] = (q, 0)
  drop_flagged q ((k, drop) ∷ flags) =
      let hit = drop && has_key k q.pending in
      let q' = if hit then drop_pending (record q { finished = add k q.finished }) k else q in
      let (q'', n) = drop_flagged q' flags in (q'', if hit then suc n else n)

module _ {S : Type 0} (g : Genetics) (max_size : ℤ) (protocol : String) (disable_ech : Bool) where
  -- `pop_batch` from the job that `pop` returned on.
  unfoldable pub batch_from :
      AdaptiveJobQueue S → Option AdaptiveJob → AdaptiveJobQueue S × List AdaptiveJob
  batch_from q none = (q, [])
  batch_from q (some first) =
      let profile = λ (d : String). curl_profile d protocol disable_ech in
      let (q', batch) =
        fill_batch profile first (at_least 1 max_size - 1) q
          (pending_domains_for_strategy q first.item.label) in
      if leb_ℤ max_size 1 || (profile first.domain).special
      then (q, first ∷ [])
      else (maybe_compact_heap g q', first ∷ batch)

-- `pop_batch`
unfoldable pub pop_batch :
    (r : Random)
    → Genetics
    → AdaptiveJobQueue r.State
    → ℤ
    → String
    → Bool
    → Option (AdaptiveJobQueue r.State × List AdaptiveJob)
pop_batch r g q max_size protocol disable_ech = elim (pop r g q []) [
  | none ↦ none
  | some (q', found) ↦ some (batch_from g max_size protocol disable_ech q' found)
]

-- The flags of the snapshot, asked for in chunks.
unfoldable pub resume_flags :
    (AdaptiveJob → Bool) → ℕ → List (Key × AdaptiveJob) → List (Key × Bool)
resume_flags check step snapshot =
    flatten (
      map (λ chunk. map (λ (p : Key × AdaptiveJob). (p.0, check p.1)) chunk) (chunks step snapshot))

-- `filter_resume`, where nothing else changes the queue while the checks run.
unfoldable pub filter_resume :
    {S : Type 0} → Genetics → (AdaptiveJob → Bool) → ℤ → AdaptiveJobQueue S → AdaptiveJobQueue S × ℕ
filter_resume g check chunk_size q =
    let (q', skipped) = drop_flagged q (resume_flags check (at_least 1 chunk_size) q.pending) in
    if eqb skipped 0 then (q', 0) else (maybe_compact_heap g q', skipped)

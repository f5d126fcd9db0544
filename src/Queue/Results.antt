-- ===== src/Queue/Results.antt =====
-- What a finished probe does to the queue of src/blockchecks/engine/adaptive_queue.py: `mark_done`,
-- the metrics, and the fan-out to the domains of the same cluster.
use blockcheck_s.Prelude.{
  ℕ, suc, ◌+◌, ◌-◌, ◌/◌, Bool, true, false, ◌&&◌, not, max, String, Option, none, some, List, [],
  ◌∷◌, ◌++◌, string_eq, pair_eq, leb, eqb, ◌==◌, if◌then◌else◌,
}
use blockcheck_s.Prelude.Lists.{is_nil}
use blockcheck_s.Prelude.Dict.{lookup, insert, contains, add}
use blockcheck_s.Job.{StrategyItem, AdaptiveJob, key}
use blockcheck_s.Weights
use blockcheck_s.Queue.{
  Genetics, AdaptiveMetrics, AdaptiveJobQueue, drop_pending, enqueue, maybe_compact_heap,
  maybe_rebuild_heap,
}

-- `record_run`, at the time `now`
unfoldable pub record_run : AdaptiveMetrics → ℕ → Bool → AdaptiveMetrics
record_run m now passed =
    let run = record m { jobs_run = m.jobs_run + 1 } in
    if passed
    then record run {
      jobs_passed = m.jobs_passed + 1;
      first_pass_at = elim m.first_pass_at [ none ↦ some (now - m.started_at) | some t ↦ some t ];
      passes_before_half =
          if not (eqb m.half_mark_jobs 0) && leb run.jobs_run m.half_mark_jobs
          then m.passes_before_half + 1
          else m.passes_before_half;
    }
    else run

-- `set_half_mark`
unfoldable pub set_half_mark : AdaptiveMetrics → ℕ → AdaptiveMetrics
set_half_mark m total = record m { half_mark_jobs = max 1 (total / 2) }

-- `idx.get(cluster, ())`
abbrev pub members : List (String × List String) → String → List String
members idx c = elim (lookup c idx) [ none ↦ [] | some ds ↦ ds ]

module _ (g : Genetics) where
  -- The loop of `_cluster_domain_index` over a dict of lists.
  unfoldable pub index_from :
      List (String × List String) → List String → List (String × List String)
  index_from idx [] = idx
  index_from idx (d ∷ ds) =
      index_from (insert (g.cluster d) (members idx (g.cluster d) ++ d ∷ []) idx) ds

  unfoldable pub cluster_domain_index : List String → List (String × List String)
  cluster_domain_index domains = index_from [] domains

  -- `[d for d in ds if d != domain]`
  unfoldable pub others : String → List String → List String
  others domain [] = []
  others domain (d ∷ ds) = let rest = others domain ds in if d == domain then rest else d ∷ rest

  -- `[d for d in ds if d != domain and cluster_domain(d) == cluster]`
  unfoldable pub others_in : String → String → List String → List String
  others_in cluster domain [] = []
  others_in cluster domain (d ∷ ds) =
      let rest = others_in cluster domain ds in
      if not (d == domain) && g.cluster d == cluster then d ∷ rest else rest

  -- `sibling_domains`
  unfoldable pub sibling_domains :
      String → List String → Option (List (String × List String)) → List String
  sibling_domains domain all_domains none = others_in (g.cluster domain) domain all_domains
  sibling_domains domain all_domains (some idx) = others domain (members idx (g.cluster domain))

  -- `AdaptiveJob.from_item`
  unfoldable pub from_item : StrategyItem → String → Bool → AdaptiveJob
  from_item item domain fanout = record {
    item = item;
    domain = domain;
    family = g.family item;
    fanout = fanout;
  }

module _ {S : Type 0} (g : Genetics) where
  -- `_cluster_index_for_fanout`
  unfoldable pub with_index : AdaptiveJobQueue S → AdaptiveJobQueue S
  with_index q =
      if is_nil q.cluster_index && not (is_nil q.all_domains)
      then record q { cluster_index = cluster_domain_index g q.all_domains }
      else q

  -- One sibling: a quarantined domain gets no job.
  unfoldable pub fan_out_to : AdaptiveJobQueue S → StrategyItem → String → AdaptiveJobQueue S × Bool
  fan_out_to q item d =
      if contains q.excluded_domains d then (q, false) else enqueue g q (from_item g item d true)

  -- The loop of `fanout_on_pass`, and the number of jobs added.
  unfoldable pub fan_out : AdaptiveJobQueue S → StrategyItem → List String → AdaptiveJobQueue S × ℕ
  fan_out q item [] = (q, 0)
  fan_out q item (d ∷ ds) =
      let (q', added) = fan_out_to q item d in
      let (q'', n) = fan_out q' item ds in (q'', if added then suc n else n)

  unfoldable pub fanout_on_pass : AdaptiveJobQueue S → AdaptiveJob → AdaptiveJobQueue S × ℕ
  fanout_on_pass q job =
      let indexed = with_index q in
      let siblings = sibling_domains g job.domain q.all_domains (some indexed.cluster_index) in
      let (q', added) = fan_out indexed job.item siblings in
      if is_nil q.all_domains then (q, 0) else (
        record q' {
          metrics = record q'.metrics { fanout_enqueued = q'.metrics.fanout_enqueued + added };
        },
        added,
      )

  -- The part of `mark_done` that does not depend on the outcome.
  unfoldable pub settle : AdaptiveJobQueue S → ℕ → AdaptiveJob → Bool → AdaptiveJobQueue S
  settle q now job passed =
      let q' = drop_pending (record q { finished = add (key job) q.finished }) (key job) in
      record q' { metrics = record_run q'.metrics now passed }

  -- The boost of the weights after a pass, with the repair of the heap.
  unfoldable pub boost : AdaptiveJobQueue S → AdaptiveJob → AdaptiveJobQueue S
  boost q job =
      let weights =
        Weights.boost_pass q.weights job.family (g.blobs job.item.strategy)
          (g.traits job.item.strategy) in
      maybe_compact_heap g (maybe_rebuild_heap g (record q { weights = weights }))

  unfoldable pub mark_done : AdaptiveJobQueue S → ℕ → AdaptiveJob → Bool → AdaptiveJobQueue S × ℕ
  mark_done q now job passed =
      let q' = settle q now job passed in
      if passed then fanout_on_pass (boost q' job) job else (maybe_compact_heap g q', 0)

-- ===== src/Adaptive/Start.antt =====
-- `build_adaptive_queue` and `_apply_provider_weights` of src/blockchecks/engine/adaptive_runner.py. What the
-- database and the provider's store return are arguments, with no rows where a load fails.
use blockcheck_s.Prelude.{
  ℕ, Bool, false, ◌&&◌, not, String, Option, none, some, List, [], ◌∷◌, string_eq, pair_eq, ◌==◌,
  if◌then◌else◌,
}
use blockcheck_s.Prelude.Int.{ℤ, pos}
use blockcheck_s.Prelude.Lists.{is_nil, length}
use blockcheck_s.Prelude.Text.{lower}
use blockcheck_s.Prelude.Dict.{contains}
use blockcheck_s.Job.{StrategyItem, AdaptiveJob}
use blockcheck_s.Weights.{ScanWeights, fresh, from_rows, boost_provider_once}
use blockcheck_s.Queue.{Genetics, Key, AdaptiveJobQueue}
use blockcheck_s.Queue.Bulk.{build, filter_resume}
use blockcheck_s.Quarantine.{DomainQuarantine}
use blockcheck_s.Triage.{TriageProfile}
use blockcheck_s.Triage.Seeding.{seed_from_triage}
use blockcheck_s.Adaptive.{extra_of}

-- A row of `pass_strategies`, with the empty text for None.
pub record PassRow : Type 0 where
  pub domain : String
  pub strategy : String

unfoldable pub lowered : List String → List String
lowered [] = []
lowered (d ∷ ds) = lower d ∷ lowered ds

module _ (g : Genetics) where
  -- The boost of one row.
  unfoldable pub boost_row : List String → ScanWeights → PassRow → ScanWeights
  boost_row domain_set w row =
      let domain = lower row.domain in
      let item : StrategyItem = record {
        label = row.strategy;
        strategy = row.strategy;
        is_config = false;
        protocol = "tls12";
      } in
      let boosted =
        (boost_provider_once w row.strategy (g.family item) (g.blobs row.strategy)
          (g.traits row.strategy)).0 in
      if not (domain == "") && not (contains domain_set domain)
      then w
      else if row.strategy == ""
      then w
      else boosted

  unfoldable pub boost_rows : List String → ScanWeights → List PassRow → ScanWeights
  boost_rows domain_set w [] = w
  boost_rows domain_set w (row ∷ rows) = boost_rows domain_set (boost_row domain_set w row) rows

  -- `_apply_provider_weights`
  unfoldable pub apply_provider_weights : List PassRow → ScanWeights → List String → ScanWeights
  apply_provider_weights rows w domains = boost_rows (lowered domains) w rows

  -- The weights at the start.
  unfoldable pub start_weights :
      {Other : Type 0}
      → List (String × ℕ)
      → List PassRow
      → Option (TriageProfile Other)
      → List String
      → ScanWeights
  start_weights rows passes triage domains =
      seed_from_triage
        (apply_provider_weights passes (if is_nil rows then fresh else from_rows rows) domains)
        triage

  -- `build_adaptive_queue`, with the number of jobs that are done already
  unfoldable pub build_adaptive_queue :
      {S : Type 0}
      → {Other : Type 0} → List StrategyItem
      → List String
      → List (String × ℕ)
      → List PassRow
      → Option (TriageProfile Other)
      → Option DomainQuarantine
      → List Key
      → Option (AdaptiveJob → Bool)
      → ℤ
      → S
      → ℕ
      → AdaptiveJobQueue S × ℕ
  build_adaptive_queue {S} items domains rows passes triage quarantine skip_keys resume_check
        epsilon rng now =
      let weights = start_weights rows passes triage domains in
      let built = build g (extra_of quarantine) skip_keys items domains weights epsilon rng now in
      let queue : AdaptiveJobQueue S = elim resume_check [
        | none ↦ built
        | some check ↦ (filter_resume g check (pos 512) built).0
      ] in
      (queue, length queue.finished)

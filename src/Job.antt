-- ===== src/Job.antt =====
-- Work units: `StrategyItem` of src/blockchecks/engine/generators/base.py and `AdaptiveJob` of
-- src/blockchecks/engine/adaptive_queue.py. The fields `_blobs`, `_traits` and `_key` of a job only
-- cache what its properties compute, so they are left out.
use blockcheck_s.Prelude.{Bool, String, string_eq}

pub record StrategyItem : Type 0 where
  pub label : String
  pub strategy : String
  pub is_config : Bool
  pub protocol : String

pub record AdaptiveJob : Type 0 where
  pub item : StrategyItem
  pub domain : String
  pub family : String
  pub fanout : Bool

-- `AdaptiveJob.key`
abbrev pub key : AdaptiveJob → String × String
key job = (job.item.label, job.domain)

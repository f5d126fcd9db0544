-- ===== src/Batch/Tests.antt =====
-- The batches of src/blockchecks/service/batch_scheduler.py at small inputs.
use blockcheck_s.Prelude.{false, String, List, [], ◌∷◌, triple_eq, string_eq, arith}
use blockcheck_s.Prelude.Int.{pos}
use blockcheck_s.Job.{StrategyItem, AdaptiveJob}
use blockcheck_s.Batch.{accumulator}
use blockcheck_s.Batch.Groups.{IsGrouping, group_jobs_by_domain_lem}
use blockcheck_s.Batch.Window.{
  Op, push_job, flush_jobs, ops, first_run, IsGoodRun, accumulator_windows,
}

abbrev item : String → StrategyItem
item label = record { label = label; strategy = label; is_config = false; protocol = "" }

abbrev job : String → String → AdaptiveJob
job label domain = record { item = item label; domain = domain; family = "fake"; fanout = false }

abbrev jobs : List AdaptiveJob
jobs =
    job "x" "a.com"
    ∷ job "y" "a.com"
    ∷ job "x" "a.com"
    ∷ job "x" "b.com"
    ∷ job "y" "b.com"
    ∷ job "z" "b.com"
    ∷ []

group_jobs_by_domain_lem_example : IsGrouping 2 false jobs
group_jobs_by_domain_lem_example = group_jobs_by_domain_lem 2 false jobs (omega arith)

abbrev op_list : List Op
op_list =
    push_job (job "x" "a.com")
    ∷ push_job (job "x" "a.com")
    ∷ flush_jobs
    ∷ push_job (job "x" "b.com")
    ∷ []

accumulator_windows_example :
    IsGoodRun (accumulator (pos 2)).batch_size (ops (first_run (pos 2)) op_list)
accumulator_windows_example = accumulator_windows (pos 2) op_list

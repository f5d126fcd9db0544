-- ===== src/Batch.antt =====
-- src/blockchecks/service/batch_scheduler.py: strategies and jobs are cut into batches for the lua
-- bridge. `bridge_batch_max` stands for DEFAULT_BRIDGE_BATCH_MAX, which the environment sets.
-- `self.batch_size` is the argument `n`. The batches of `out`, and the jobs of `cur`, stand in the
-- order of the source.
pub mod Groups
pub mod Window
mod Tests
use blockcheck_s.Prelude.{
  ℕ, zero, suc, ◌+◌, Bool, true, false, ◌&&◌, ◌||◌, not, String, Option, none, some, List, [], ◌∷◌,
  ◌++◌, max, string_eq, triple_eq, ltb, leb, ◌==◌, if◌then◌else◌,
}
use blockcheck_s.Prelude.Int.{ℤ, clamp_ℤ, at_least}
use blockcheck_s.Prelude.Lists.{length, chunks}
use blockcheck_s.Prelude.Dict.{contains, add}
use blockcheck_s.Job.{StrategyItem, AdaptiveJob}

-- `batch_job_key`: an empty protocol counts as tls12.
abbrev pub batch_job_key : AdaptiveJob → String × String × String
batch_job_key job =
    (job.item.label, job.domain, if job.item.protocol == "" then "tls12" else job.item.protocol)

-- `BatchScheduler.__init__`
unfoldable pub scheduler_size : ℕ → ℤ → ℕ
scheduler_size bridge_batch_max batch_size = clamp_ℤ 1 bridge_batch_max batch_size

-- `iter_batches`
unfoldable pub iter_batches : ℕ → List StrategyItem → List (List StrategyItem)
iter_batches n [] = []
iter_batches n (item ∷ items) = chunks n (item ∷ items)

-- The variables of the loop of `group_jobs_by_domain`.
pub record Grouping : Type 0 where
  pub out : List (List AdaptiveJob)
  pub cur_domain : String
  pub cur : List AdaptiveJob
  pub labels : List String

-- `if cur: out.append(cur)`
abbrev pub flushed : List (List AdaptiveJob) → List AdaptiveJob → List (List AdaptiveJob)
flushed out [] = out
flushed out (job ∷ jobs) = out ++ (job ∷ jobs) ∷ []

-- `if job.domain != cur_domain: …`
unfoldable pub change_domain : Grouping → AdaptiveJob → Grouping
change_domain g job =
    if g.cur_domain == job.domain
    then g
    else record { out = flushed g.out g.cur; cur_domain = job.domain; cur = []; labels = [] }

-- The rest of the loop's body: a label that the batch holds, a full batch, any other job.
unfoldable pub place : ℕ → Grouping → AdaptiveJob → Grouping
place n g job =
    if contains g.labels job.item.label
    then record g { out = flushed g.out g.cur; cur = job ∷ []; labels = job.item.label ∷ [] }
    else if leb n (length g.cur)
    then record g { out = g.out ++ g.cur ∷ []; cur = job ∷ []; labels = add job.item.label [] }
    else record g { cur = g.cur ++ job ∷ []; labels = add job.item.label g.labels }

unfoldable pub group_step : ℕ → Grouping → AdaptiveJob → Grouping
group_step n g job = place n (change_domain g job) job

unfoldable pub group_loop : ℕ → Grouping → List AdaptiveJob → Grouping
group_loop n g [] = g
group_loop n g (job ∷ jobs) = group_loop n (group_step n g job) jobs

abbrev is_empty : List AdaptiveJob → Bool
is_empty [] = true
is_empty (job ∷ jobs) = false

-- `if cur and (flush_partial or len(cur) >= self.batch_size): out.append(cur)`
unfoldable pub finish : ℕ → Bool → Grouping → List (List AdaptiveJob)
finish n flush_partial g =
    if not (is_empty g.cur) && (flush_partial || leb n (length g.cur))
    then g.out ++ g.cur ∷ []
    else g.out

unfoldable pub group_jobs_by_domain : ℕ → Bool → List AdaptiveJob → List (List AdaptiveJob)
group_jobs_by_domain n flush_partial [] = []
group_jobs_by_domain n flush_partial (first ∷ jobs) =
    let start : Grouping = record { out = []; cur_domain = first.domain; cur = []; labels = [] } in
    finish n flush_partial (group_loop n start (first ∷ jobs))

-- `BatchJobAccumulator`
pub record BatchJobAccumulator : Type 0 where
  pub batch_size : ℕ
  pub jobs : List AdaptiveJob
  pub keys : List (String × String × String)

unfoldable pub accumulator : ℤ → BatchJobAccumulator
accumulator batch_size = record { batch_size = at_least 1 batch_size; jobs = []; keys = [] }

-- `flush`: the new state and the jobs that were held.
unfoldable pub flush : BatchJobAccumulator → BatchJobAccumulator × List AdaptiveJob
flush a = (record a { jobs = []; keys = [] }, a.jobs)

-- `self._jobs and batch_job_key(self._jobs[0])[-1] != key[-1]`
abbrev pub other_protocol : List AdaptiveJob → AdaptiveJob → Bool
other_protocol [] job = false
other_protocol (first ∷ jobs) job = not ((batch_job_key first).2 == (batch_job_key job).2)

unfoldable pub can_accept : BatchJobAccumulator → AdaptiveJob → Bool
can_accept a job =
    if job.fanout
    then false
    else if contains a.keys (batch_job_key job)
    then false
    else if other_protocol a.jobs job
    then false
    else ltb (length a.jobs) a.batch_size

unfoldable pub push : BatchJobAccumulator → AdaptiveJob → BatchJobAccumulator × Bool
push a job =
    if not (can_accept a job)
    then (a, false)
    else (record a { jobs = a.jobs ++ job ∷ []; keys = add (batch_job_key job) a.keys }, true)

unfoldable pub is_full : BatchJobAccumulator → Bool
is_full a = leb a.batch_size (length a.jobs)

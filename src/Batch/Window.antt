-- ===== src/Batch/Window.antt =====
-- The accumulator of src/blockchecks/service/batch_scheduler.py over any sequence of its calls.
use mathlib.Core.Path.{subst}
use mathlib.Core.List.{append_assoc, append-nil, map-append}
use blockcheck_s.Prelude.{
  ℕ, ◌≤◌, ◌<◌, Bool, true, false, not, String, List, [], ◌∷◌, ◌++◌, map, string_eq, triple_eq, ◌==◌,
  if◌then◌else◌, ◌≡◌, refl, sym, ◌↔◌, arith, ==_iff, Bool-cases, inl, inr, ◌∙◌, ap,
}
use blockcheck_s.Prelude.Int.{ℤ}
use blockcheck_s.Prelude.Lists.{length, flatten, All, All-append, length-append, flatten-snoc}
use blockcheck_s.Prelude.Dict.{
  contains, add, Distinct, Distinct-snoc, contains-append, contains-add,
}
use blockcheck_s.Job.{AdaptiveJob}
use blockcheck_s.Batch.{
  BatchJobAccumulator, batch_job_key, other_protocol, accumulator, flush, can_accept, push, is_full,
}

abbrev pub protocol : AdaptiveJob → String
protocol job = (batch_job_key job).2

-- What may be sent to the bridge as one batch.
pub record IsWindow (n : ℕ) (jobs : List AdaptiveJob) : Type 0 where
  pub fits : length jobs ≤ n
  pub keys_differ : Distinct (map batch_job_key jobs)
  pub no_fanout : All (λ job. job.fanout ≡ false) jobs
  pub shared : String
  pub one_protocol : All (λ job. protocol job ≡ shared) jobs

pub record IsValid (a : BatchJobAccumulator) : Type 0 where
  pub window : IsWindow a.batch_size a.jobs
  pub known :
      (k : String × String × String) → contains a.keys k ≡ contains (map batch_job_key a.jobs) k

pub accumulator-IsValid : (n : ℤ) → IsValid (accumulator n)
unfolding accumulator contains
accumulator-IsValid n = record {
  window = record {
    fits = omega arith;
    keys_differ = tt;
    no_fanout = tt;
    shared = "";
    one_protocol = tt;
  };
  known = λ k. refl;
}

flush-IsValid : (a : BatchJobAccumulator) → IsValid a → IsValid (flush a).0
unfolding flush contains
flush-IsValid a h = record {
  window = record {
    fits = omega arith;
    keys_differ = tt;
    no_fanout = tt;
    shared = "";
    one_protocol = tt;
  };
  known = λ k. refl;
}

not-false : (b : Bool) → not b ≡ false → b ≡ true
not-false true h = refl
not-false false h = cc

same_protocol : (a b : AdaptiveJob) → (protocol a == protocol b) ≡ true → protocol a ≡ protocol b
same_protocol a b h = (==_iff (protocol a) (protocol b)).0 h

key_known :
    (keys : List (String × String × String)) (jobs : List AdaptiveJob) (job : AdaptiveJob)
    (k : String × String × String)
    → contains keys k ≡ contains (map batch_job_key jobs) k
    → contains (add (batch_job_key job) keys) k ≡ contains (map batch_job_key (jobs ++ job ∷ [])) k
unfolding contains
key_known keys jobs job k h = rw (map-append batch_job_key jobs (job ∷ [])) (
    ground (
      arith,
      h,
      contains-add (batch_job_key job) k keys,
      contains-append (map batch_job_key jobs) (batch_job_key job ∷ []) k,
    ))

size-push : (a : BatchJobAccumulator) (job : AdaptiveJob) → (push a job).0.batch_size ≡ a.batch_size
unfolding push
size-push a job = ground arith

jobs-push :
    (a : BatchJobAccumulator) (job : AdaptiveJob) (before taken : List AdaptiveJob)
    → before ++ a.jobs ≡ taken
    → before ++ (push a job).0.jobs ≡ (if (push a job).1 then taken ++ job ∷ [] else taken)
unfolding push
jobs-push a job before taken h = elim (Bool-cases (can_accept a job)) [
  | inl e ↦ rw e (sym (append_assoc before a.jobs (job ∷ [])) ∙ ap (λ t. t ++ job ∷ []) h)
  | inr e ↦ rw e h
]

-- The protocol of a window with one more job.
share :
    (jobs : List AdaptiveJob) (job : AdaptiveJob) (p : String)
    → other_protocol jobs job ≡ false
    → All (λ j. protocol j ≡ p) jobs
    → All (λ j. protocol j ≡ protocol job) (jobs ++ job ∷ [])
share [] job p same h = (refl, tt)
share (first ∷ jobs) job p same h =
    let e : p ≡ protocol job = sym h.0 ∙ same_protocol first job (not-false _ same) in
    subst (λ q. All (λ j. protocol j ≡ q) ((first ∷ jobs) ++ job ∷ [])) e
      (All-append (λ j. protocol j ≡ p) (first ∷ jobs) (job ∷ []) h (sym e, tt))

can_accept_lem :
    (a : BatchJobAccumulator) (job : AdaptiveJob)
    → can_accept a job ≡ true
    → (job.fanout ≡ false)
      × (contains a.keys (batch_job_key job) ≡ false)
      × (other_protocol a.jobs job ≡ false)
      × (length a.jobs < a.batch_size)
unfolding can_accept
can_accept_lem a job h = ground arith

push-IsValid : (a : BatchJobAccumulator) (job : AdaptiveJob) → IsValid a → IsValid (push a job).0
unfolding push
push-IsValid a job h = elim (Bool-cases (can_accept a job)) [
  | inr e ↦ rw e h
  | inl e ↦
      let (single, new, same, room) = can_accept_lem a job e in
      rw e (record {
        window = record {
          fits = ground (arith, length-append a.jobs (job ∷ []));
          keys_differ = rw (map-append batch_job_key a.jobs (job ∷ [])) (
              Distinct-snoc (map batch_job_key a.jobs) (batch_job_key job)
                (sym (h.known (batch_job_key job)) ∙ new) h.window.keys_differ);
          no_fanout =
              All-append (λ j. j.fanout ≡ false) a.jobs (job ∷ []) h.window.no_fanout (single, tt);
          shared = protocol job;
          one_protocol = share a.jobs job h.window.shared same h.window.one_protocol;
        };
        known = λ k. key_known a.keys a.jobs job k (h.known k);
      })
]

-- The calls that change an accumulator.
pub data Op : Type 0 where
  push_job : AdaptiveJob → Op
  flush_jobs : Op

-- What the caller of these methods holds: the batches that it took, and the jobs that went in.
pub record Run : Type 0 where
  pub acc : BatchJobAccumulator
  pub sent : List (List AdaptiveJob)
  pub taken : List AdaptiveJob

unfoldable pub op : Run → Op → Run
op r (push_job job) =
    let (acc, took) = push r.acc job in
    record r { acc = acc; taken = if took then r.taken ++ job ∷ [] else r.taken }
op r flush_jobs =
    let (acc, jobs) = flush r.acc in record r { acc = acc; sent = r.sent ++ jobs ∷ [] }

unfoldable pub ops : Run → List Op → Run
ops r [] = r
ops r (o ∷ os) = ops (op r o) os

pub record IsGoodRun (n : ℕ) (r : Run) : Type 0 where
  pub valid : IsValid r.acc
  pub size : r.acc.batch_size ≡ n
  pub windows : All (IsWindow n) r.sent
  pub conserved : flatten r.sent ++ r.acc.jobs ≡ r.taken

op-IsGoodRun : (n : ℕ) (r : Run) (o : Op) → IsGoodRun n r → IsGoodRun n (op r o)
unfolding op
op-IsGoodRun n r (push_job job) h = record {
  valid = push-IsValid r.acc job h.valid;
  size = size-push r.acc job ∙ h.size;
  windows = h.windows;
  conserved = jobs-push r.acc job (flatten r.sent) r.taken h.conserved;
}
op-IsGoodRun n r flush_jobs h = record {
  valid = flush-IsValid r.acc h.valid;
  size = (unfold flush in h.size);
  windows =
      (unfold flush in
        All-append (IsWindow n) r.sent (r.acc.jobs ∷ []) h.windows
          (subst (λ m. IsWindow m r.acc.jobs) h.size h.valid.window, tt));
  conserved =
      (unfold flush in
        append-nil (flatten (r.sent ++ r.acc.jobs ∷ []))
        ∙ flatten-snoc r.sent r.acc.jobs
        ∙ h.conserved);
}

ops-IsGoodRun : (n : ℕ) (r : Run) (os : List Op) → IsGoodRun n r → IsGoodRun n (ops r os)
unfolding ops
ops-IsGoodRun n r [] h = h
ops-IsGoodRun n r (o ∷ os) h = ops-IsGoodRun n (op r o) os (op-IsGoodRun n r o h)

abbrev pub first_run : ℤ → Run
first_run n = record { acc = accumulator n; sent = []; taken = [] }

-- Over any calls of `push` and `flush` on a new accumulator: every batch that `flush` returned, and
-- the one in the making, holds at most `batch_size` jobs, of one protocol, with different keys, none
-- of them a fan-out job; and together they hold the jobs that `push` took, in order.
pub accumulator_windows :
    (asked : ℤ) (os : List Op) → IsGoodRun (accumulator asked).batch_size (ops (first_run asked) os)
unfolding flatten accumulator
accumulator_windows asked os =
    ops-IsGoodRun (accumulator asked).batch_size (first_run asked) os
      (record { valid = accumulator-IsValid asked; size = refl; windows = tt; conserved = refl })

-- The conditions under which `push` takes a job.
abbrev pub IsTakenIff : BatchJobAccumulator → AdaptiveJob → Type 0
IsTakenIff a job = ((push a job).1 ≡ true) ↔ (
    (job.fanout ≡ false)
    × (contains (map batch_job_key a.jobs) (batch_job_key job) ≡ false)
    × (other_protocol a.jobs job ≡ false)
    × (is_full a ≡ false))

-- On a valid accumulator, `push` takes a job exactly when the job is no fan-out job, the window does
-- not hold its key, its protocol is that of the first job held, and the window is not full.
pub push_iff : (a : BatchJobAccumulator) (job : AdaptiveJob) → IsValid a → IsTakenIff a job
unfolding push can_accept is_full
push_iff a job h = (
  λ t. ground (arith, h.known (batch_job_key job)),
  λ t. ground (arith, h.known (batch_job_key job)),
)

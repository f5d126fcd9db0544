-- ===== src/Queue/Promise.antt =====
-- What `pop` of the queue of src/blockchecks/engine/adaptive_queue.py promises, and the invariant of
-- its loop.
use mathlib.Core.Path.{subst}
use blockcheck_s.Prelude.{
  true, false, Option, none, some, List, [], string_eq, pair_eq, ◌==◌, ◌≡◌, refl, sym, ◌∙◌, arith,
  Bool-cases, inl, inr,
}
use blockcheck_s.Prelude.Lists.{All}
use blockcheck_s.Prelude.Dict.{lookup, has_key, contains}
use blockcheck_s.Job.{AdaptiveJob, key}
use blockcheck_s.Queue.{Key, AdaptiveJobQueue}
use blockcheck_s.Queue.Heap.{HeapEntry}
use blockcheck_s.Queue.Invariant.{IsValid}
use blockcheck_s.Queue.Pop.{Round, again, stop}

module _ {S : Type 0} where
  -- A pending job that is not excluded for good.
  abbrev pub IsOpen : AdaptiveJobQueue S → Key → AdaptiveJob → Type 0
  IsOpen q k job =
      (lookup k q.pending ≡ some job) × (contains q.excluded_domains job.domain ≡ false)

  abbrev pub IsSkip : AdaptiveJobQueue S → HeapEntry → Type 0
  IsSkip q e = (job : AdaptiveJob) × IsOpen q e.key job

  pub record IsLooping (q : AdaptiveJobQueue S) (skipped : List HeapEntry) : Type 0 where
    pub valid : IsValid q skipped
    pub skips : All (IsSkip q) skipped

  -- Every key marked as done in `q` is so in `q'`.
  abbrev pub Remembers : AdaptiveJobQueue S → AdaptiveJobQueue S → Type 0
  Remembers q q' = (k : Key) → contains q.finished k ≡ true → contains q'.finished k ≡ true

  -- From `q` to `q'` only jobs that are excluded for good have gone.
  pub record Sheds (q q' : AdaptiveJobQueue S) : Type 0 where
    pub same_excluded : q'.excluded_domains ≡ q.excluded_domains
    pub remembers : Remembers q q'
    pub old :
        (k : Key) (job : AdaptiveJob)
        → lookup k q'.pending ≡ some job
        → lookup k q.pending ≡ some job
    pub kept :
        (k : Key) (job : AdaptiveJob)
        → lookup k q.pending ≡ some job
        → contains q.excluded_domains job.domain ≡ false
        → lookup k q'.pending ≡ some job

  pub Sheds-refl : (q : AdaptiveJobQueue S) → Sheds q q
  Sheds-refl q = record {
    same_excluded = refl;
    remembers = λ k e. e;
    old = λ k job e. e;
    kept = λ k job e x. e;
  }

  pub Sheds-trans : (a b c : AdaptiveJobQueue S) → Sheds a b → Sheds b c → Sheds a c
  Sheds-trans a b c h k = record {
    same_excluded = k.same_excluded ∙ h.same_excluded;
    remembers = λ j e. k.remembers j (h.remembers j e);
    old = λ j job e. h.old j job (k.old j job e);
    kept = λ j job e x. k.kept j job (h.kept j job e x) (rw h.same_excluded x);
  }

  -- The job that `pop` returns was pending and is so no more; it is not excluded for good; all other
  -- open jobs are still pending.
  pub record IsTaken (q q' : AdaptiveJobQueue S) (job : AdaptiveJob) : Type 0 where
    pub valid : IsValid q' []
    pub remembers : Remembers q q'
    pub opened : IsOpen q (key job) job
    pub gone : has_key (key job) q'.pending ≡ false
    pub old :
        (k : Key) (j : AdaptiveJob) → lookup k q'.pending ≡ some j → lookup k q.pending ≡ some j
    pub kept :
        (k : Key) (j : AdaptiveJob)
        → IsOpen q k j
        → (key job == k) ≡ false
        → lookup k q'.pending ≡ some j

  -- Nothing is returned only if every pending job is excluded for good.
  pub record IsExhausted (q q' : AdaptiveJobQueue S) : Type 0 where
    pub valid : IsValid q' []
    pub remembers : Remembers q q'
    pub none_open :
        (k : Key) (job : AdaptiveJob)
        → lookup k q.pending ≡ some job
        → contains q.excluded_domains job.domain ≡ true

  abbrev pub IsPopped : AdaptiveJobQueue S → AdaptiveJobQueue S → Option AdaptiveJob → Type 0
  IsPopped q q' none = IsExhausted q q'
  IsPopped q q' (some job) = IsTaken q q' job

  abbrev pub IsRound : AdaptiveJobQueue S → Round S → Type 0
  IsRound q (again q' skipped) = IsLooping q' skipped × Sheds q q'
  IsRound q (stop q' job) = IsPopped q q' job

-- What holds of a later round holds of the whole.
module _ {S : Type 0} (a b : AdaptiveJobQueue S) (s : Sheds a b) where
  pub IsPopped-trans :
      (c : AdaptiveJobQueue S) (job : Option AdaptiveJob) → IsPopped b c job → IsPopped a c job
  IsPopped-trans c none h = record {
    valid = h.valid;
    remembers = λ k e. h.remembers k (s.remembers k e);
    none_open = λ k job e. elim (Bool-cases (contains a.excluded_domains job.domain)) [
      | inl bad ↦ bad
      | inr fine ↦ ground (arith, s.kept k job e fine, h.none_open k job, s.same_excluded)
    ];
  }
  IsPopped-trans c (some job) h = record {
    valid = h.valid;
    remembers = λ k e. h.remembers k (s.remembers k e);
    opened = (
      s.old (key job) job h.opened.0,
      subst (λ x. contains x job.domain ≡ false) s.same_excluded h.opened.1,
    );
    gone = h.gone;
    old = λ k j e. s.old k j (h.old k j e);
    kept = λ k j o n.
        h.kept k j
          (s.kept k j o.0 o.1, subst (λ x. contains x j.domain ≡ false) (sym s.same_excluded) o.1)
          n;
  }

  pub IsRound-trans : (r : Round S) → IsRound b r → IsRound a r
  IsRound-trans (again q skipped) h = (h.0, Sheds-trans a b q s h.1)
  IsRound-trans (stop q job) h = IsPopped-trans q job h

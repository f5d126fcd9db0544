-- ===== src/Queue/Popping.antt =====
-- One round of `pop` of the queue of src/blockchecks/engine/adaptive_queue.py: what it keeps, and what
-- it returns.
use mathlib.Core.Path.{subst}
use blockcheck_s.Prelude.{
  true, false, String, Option, none, some, List, [], ◌∷◌, ◌++◌, string_eq, pair_eq, ==_iff, ==_refl,
  ◌≡◌, refl, sym, ap, arith, option_split, if_both, if_split,
}
use blockcheck_s.Prelude.Lists.{All, All-append, All-map}
use blockcheck_s.Prelude.Dict.{lookup, contains, add, contains-add}
use blockcheck_s.Job.{AdaptiveJob, key}
use blockcheck_s.Queue.{Genetics, AdaptiveJobQueue, drop_pending, entry_stale, refresh, push_entry}
use blockcheck_s.Queue.Heap.{
  HeapEntry, has_entry, has_entry-push_all, has_entry-append, has_entry-push_heap, IsOrdered,
  IsOrdered-push_all,
}
use blockcheck_s.Queue.Invariant.{
  IsValid, lookup-drop_pending, finished-drop_pending, excluded-drop_pending, drop_pending-IsValid,
  refresh-IsValid, finish_job-IsValid,
}
use blockcheck_s.Queue.Pop.{Round, again, discard_job, take_job, pop_skipped, visit, round}
use blockcheck_s.Queue.Promise.{
  IsOpen, IsSkip, IsLooping, Sheds, Sheds-refl, IsTaken, IsPopped, IsRound, IsRound-trans,
}

module _ {S : Type 0} where
  take_job-IsTaken :
      (q : AdaptiveJobQueue S) (job : AdaptiveJob) (e : HeapEntry) (skipped : List HeapEntry)
      → IsValid q (e ∷ skipped)
      → e.key ≡ key job
      → IsOpen q (key job) job
      → IsTaken q (take_job q (key job) skipped) job
  unfolding take_job has_entry
  take_job-IsTaken q job e skipped h ek o =
      let d = drop_pending-IsValid q (key job) (e ∷ skipped) h in
      let look = lookup-drop_pending q (key job) in
      record {
        valid = record {
          filed = d.filed;
          all_filed = d.all_filed;
          not_finished = d.not_finished;
          covered = λ k p. ground (
            arith,
            d.covered k,
            look k,
            has_entry-push_all k skipped (drop_pending q (key job)).heap,
            ==_iff (key job) k,
            ==_iff e.key k,
            ek,
          );
          ordered = IsOrdered-push_all skipped _ d.ordered;
        };
        remembers = λ k p. ground (arith, finished-drop_pending q (key job));
        opened = o;
        gone = ground (arith, look (key job), ==_refl (key job));
        old = λ k j p. ground (arith, look k);
        kept = λ k j p n. ground (arith, look k);
      }

  pop_skipped-IsPopped :
      (q : AdaptiveJobQueue S) (skipped : List HeapEntry)
      → q.heap ≡ []
      → IsLooping q skipped
      → IsPopped q (pop_skipped q skipped).0 (pop_skipped q skipped).1
  unfolding pop_skipped has_entry
  pop_skipped-IsPopped q [] empty h = record {
    valid = h.valid;
    remembers = λ k e. e;
    none_open = λ k job e. ground (arith, h.valid.covered k, ap (has_entry k) empty);
  }
  pop_skipped-IsPopped q (e ∷ es) empty h =
      let (job, open_here) = h.skips.0 in
      option_split {B = AdaptiveJobQueue S × Option AdaptiveJob} (λ r. IsPopped q r.0 r.1)
        (lookup e.key q.pending) (pop_skipped q es) (λ j. (take_job q e.key es, some j))
        (λ gone. cc (gone, open_here.0))
        (λ j found.
          let ek = sym (h.valid.filed e.key j found) in
          subst (λ k. IsTaken q (take_job q k es) j) (sym ek)
            (take_job-IsTaken q j e es h.valid ek
              (subst (λ k. IsOpen q k j) ek (found, ground (arith, open_here, found)))))

  -- The heap without its first entry, which is set aside.
  unshift-IsValid :
      (q : AdaptiveJobQueue S) (e : HeapEntry) (es skipped : List HeapEntry)
      → q.heap ≡ e ∷ es
      → IsValid q skipped
      → IsValid (record q { heap = es }) (e ∷ skipped)
  unfolding has_entry
  unshift-IsValid q e es skipped p h = record {
    filed = h.filed;
    all_filed = h.all_filed;
    not_finished = h.not_finished;
    covered = λ k x. ground (arith, h.covered k, ap (has_entry k) p);
    ordered = (subst IsOrdered p h.ordered).1;
  }

module _ {S : Type 0} (g : Genetics) (exclude : List String) (q : AdaptiveJobQueue S)
    (e : HeapEntry) (skipped : List HeapEntry) (h : IsValid q (e ∷ skipped))
    (skips : All (IsSkip q) skipped) where
  -- An entry whose job is gone is dropped.
  forget-IsLooping : lookup e.key q.pending ≡ none → IsLooping q skipped
  unfolding has_entry
  forget-IsLooping gone = record {
    valid = record {
      filed = h.filed;
      all_filed = h.all_filed;
      not_finished = h.not_finished;
      covered = λ k x. ground (arith, h.covered k, ==_iff e.key k, gone);
      ordered = h.ordered;
    };
    skips = skips;
  }

  module _ (job : AdaptiveJob) (found : lookup e.key q.pending ≡ some job) where
    at_key : e.key ≡ key job
    at_key = sym (h.filed e.key job found)

    refresh-IsRound : IsRound q (again (refresh g q job) skipped)
    unfolding refresh push_entry has_entry
    refresh-IsRound =
        let r = refresh-IsValid g q job (e ∷ skipped) h in
        (
          record {
            valid = record {
              filed = r.filed;
              all_filed = r.all_filed;
              not_finished = r.not_finished;
              covered =
                  λ k x. grind (arith, h.covered k, has_entry-push_heap, ==_iff e.key k, at_key);
              ordered = r.ordered;
            };
            skips = skips;
          },
          record {
            same_excluded = refl;
            remembers = λ k e. e;
            old = λ k j p. p;
            kept = λ k j p x. p;
          },
        )

    discard_job-IsRound :
        contains q.excluded_domains job.domain ≡ true
        → IsRound q (again (discard_job q (key job)) skipped)
    unfolding discard_job has_entry
    discard_job-IsRound bad =
        let marked : AdaptiveJobQueue S = record q { finished = add (key job) q.finished } in
        let d = finish_job-IsValid q (key job) (e ∷ skipped) h in
        let look = lookup-drop_pending marked (key job) in
        let same = excluded-drop_pending marked (key job) in
        (
          record {
            valid = record {
              filed = d.filed;
              all_filed = d.all_filed;
              not_finished = d.not_finished;
              covered = λ k x.
                  ground (arith, d.covered k, look k, ==_iff e.key k, ==_iff (key job) k, at_key);
              ordered = d.ordered;
            };
            skips =
                All-map (IsSkip q) (IsSkip (discard_job q (key job)))
                  (λ x s. (
                    s.0,
                    (
                      ground (arith, s.1, look x.key, ==_iff (key job) x.key, found, bad, at_key),
                      ground (arith, s.1, same),
                    ),
                  ))
                  skipped skips;
          },
          record {
            same_excluded = same;
            remembers = λ k p. ground (
              arith,
              finished-drop_pending marked (key job),
              contains-add (key job) k q.finished,
            );
            old = λ k j p. ground (arith, look k);
            kept = λ k j p x. ground (arith, look k, ==_iff (key job) k, found, bad, at_key);
          },
        )

    skip-IsRound :
        contains q.excluded_domains job.domain ≡ false → IsRound q (again q (skipped ++ e ∷ []))
    unfolding has_entry
    skip-IsRound fine = (
      record {
        valid = record {
          filed = h.filed;
          all_filed = h.all_filed;
          not_finished = h.not_finished;
          covered = λ k x. ground (arith, h.covered k, has_entry-append k skipped (e ∷ []));
          ordered = h.ordered;
        };
        skips = All-append (IsSkip q) skipped (e ∷ []) skips ((job, (found, fine)), tt);
      },
      Sheds-refl q,
    )

    visit-IsRound : IsRound q (visit g exclude q e job skipped)
    unfolding visit
    visit-IsRound = if_both {A = Round S} (IsRound q) (entry_stale g q e job) _ _ refresh-IsRound (
        if_split {A = Round S} (IsRound q) (contains q.excluded_domains job.domain) _ _
          discard_job-IsRound
          (λ fine.
            if_both {A = Round S} (IsRound q) (contains exclude job.domain) _ _ (skip-IsRound fine)
              (take_job-IsTaken q job e skipped h at_key
                (subst (λ k. lookup k q.pending ≡ some job) at_key found, fine))))

module _ {S : Type 0} (g : Genetics) (exclude : List String) (q : AdaptiveJobQueue S) where
  -- Whatever the first entry of the heap is, the round keeps the loop's invariant or returns what
  -- `pop` promises.
  pub round-IsRound :
      (h : List HeapEntry) (skipped : List HeapEntry)
      → q.heap ≡ h
      → IsLooping q skipped
      → IsRound q (round g exclude q h skipped)
  unfolding round
  round-IsRound [] skipped empty l = pop_skipped-IsPopped q skipped empty l
  round-IsRound (e ∷ es) skipped p l =
      let popped : AdaptiveJobQueue S = record q { heap = es } in
      let same : Sheds q popped = record {
        same_excluded = refl;
        remembers = λ k e. e;
        old = λ k j x. x;
        kept = λ k j x f. x;
      } in
      let v = unshift-IsValid q e es skipped p l.valid in
      option_split {B = Round S} (IsRound q) (lookup e.key q.pending) (again popped skipped)
        (λ job. visit g exclude popped e job skipped)
        (λ gone.
          IsRound-trans q popped same (again popped skipped)
            (forget-IsLooping g exclude popped e skipped v l.skips gone, Sheds-refl popped))
        (λ job found.
          IsRound-trans q popped same (visit g exclude popped e job skipped)
            (visit-IsRound g exclude popped e skipped v l.skips job found))

-- ===== src/Queue/Popped.antt =====
-- `pop` of the queue of src/blockchecks/engine/adaptive_queue.py as a whole.
use mathlib.Core.Path.{subst}
use blockcheck_s.Prelude.{
  Bool, ◌&&◌, String, Option, none, some, List, [], ◌∷◌, ◌++◌, ltb, eqb, string_eq, pair_eq,
  if◌then◌else◌, ◌≡◌, refl, sym, arith, if_both, if_split,
}
use blockcheck_s.Prelude.Lists.{length}
use blockcheck_s.Prelude.Dict.{lookup}
use blockcheck_s.Job.{AdaptiveJob}
use blockcheck_s.Queue.{Genetics, Random, Key, AdaptiveJobQueue}
use blockcheck_s.Queue.Invariant.{IsValid}
use blockcheck_s.Queue.Pop.{draw, pop, pop_loop, pop_random, pop_fuel}
use blockcheck_s.Queue.Promise.{IsPopped, Sheds, IsPopped-trans}
use blockcheck_s.Queue.Exploring.{IsFair, pop_random-IsPopped}
use blockcheck_s.Queue.Rounds.{pop_loop_total}

module _ (g : Genetics) (r : Random) (fair : IsFair r) where
  abbrev Result : Type 0
  Result = AdaptiveJobQueue r.State × Option AdaptiveJob

  -- `o` is the result of a call of `pop` at `q`, and keeps its promise.
  abbrev pub Pops : AdaptiveJobQueue r.State → Option Result → Type 0
  Pops q o = (res : Result) × (o ≡ some res) × IsPopped q res.0 res.1

  abbrev IsDrawn : AdaptiveJobQueue r.State → AdaptiveJobQueue r.State × Bool → Type 0
  IsDrawn q x = (s : r.State) × (x.0 ≡ record q { rng = s })

  draw-IsDrawn : (q : AdaptiveJobQueue r.State) → IsDrawn q (draw r q)
  unfolding draw
  draw-IsDrawn q =
      if_both {A = AdaptiveJobQueue r.State × Bool} (IsDrawn q) (ltb 0 q.epsilon) _ _ (_, refl)
        (q.rng, refl)

  -- A queue that holds no job has none to return.
  empty-IsPopped :
      (q : AdaptiveJobQueue r.State) → length q.pending ≡ 0 → IsValid q [] → IsPopped q q none
  unfolding lookup
  empty-IsPopped q e h = record {
    valid = h;
    remembers = λ k e. e;
    none_open = λ k job p. nothing k job q.pending e p;
  }
    where
      nothing :
          {A : Type 0} (k : Key) (job : AdaptiveJob) (m : List (Key × AdaptiveJob))
          → length m ≡ 0
          → lookup k m ≡ some job
          → A
      nothing k job [] e p = absurd (cc p)
      nothing k job (x ∷ xs) e p = absurd (omega (arith, e))

  -- Of each branch, at the state of the random numbers after the draw.
  module _ (q : AdaptiveJobQueue r.State) (soft : List String) (h : IsValid q [])
      (s : r.State) where
    drawn : AdaptiveJobQueue r.State
    drawn = record q { rng = s }

    drawn-IsValid : IsValid drawn []
    unfolding drawn
    drawn-IsValid = record {
      filed = h.filed;
      all_filed = h.all_filed;
      not_finished = h.not_finished;
      covered = h.covered;
      ordered = h.ordered;
    }

    drawn-Sheds : Sheds q drawn
    unfolding drawn
    drawn-Sheds = record {
      same_excluded = refl;
      remembers = λ k e. e;
      old = λ k j e. e;
      kept = λ k j e f. e;
    }

    random-IsPopped :
        IsPopped q
          (pop_random r drawn (soft ++ q.excluded_domains)).0
          (pop_random r drawn (soft ++ q.excluded_domains)).1
    unfolding drawn
    random-IsPopped =
        IsPopped-trans q drawn drawn-Sheds _ _ (pop_random-IsPopped r fair drawn drawn-IsValid soft)

    greedy-Pops : Pops q (pop_loop g (soft ++ q.excluded_domains) (pop_fuel r drawn) drawn [])
    unfolding drawn
    greedy-Pops =
        let (res, e, good) =
          pop_loop_total g (soft ++ q.excluded_domains) drawn
            (record { valid = drawn-IsValid; skips = tt }) in
        (res, e, IsPopped-trans q drawn drawn-Sheds res.0 res.1 good)

    branches :
        (q' : AdaptiveJobQueue r.State) (hit : Bool)
        → q' ≡ record q { rng = s }
        → Pops q (
            if eqb (length q.pending) 0
            then some (q, none)
            else if hit && ltb 1 (length q.pending)
            then some (pop_random r q' (soft ++ q.excluded_domains))
            else pop_loop g (soft ++ q.excluded_domains) (pop_fuel r q') q' [])
    unfolding drawn
    branches q' hit e =
        if_split {A = Option Result} (Pops q) (eqb (length q.pending) 0) _ _
          (λ empty. ((q, none), refl, empty-IsPopped q (ground (arith, empty)) h))
          (λ some_left.
            subst
              (λ x. Pops q (
                if hit && ltb 1 (length q.pending)
                then some (pop_random r x (soft ++ q.excluded_domains))
                else pop_loop g (soft ++ q.excluded_domains) (pop_fuel r x) x []))
              (sym e)
              (if_both {A = Option Result} (Pops q) (hit && ltb 1 (length q.pending)) _ _
                (_, refl, random-IsPopped) greedy-Pops))

  -- On a valid queue `pop` returns, in both its branches, if `randint(1, 1)` is 1. A job that it
  -- returns was pending under its key and is not excluded for good; it is not pending afterwards, and
  -- every other pending job that is not excluded for good still is. It returns none only if every
  -- pending job is excluded for good. The queue stays valid, and forgets no key that was done.
  pub pop-Pops :
      (q : AdaptiveJobQueue r.State) (soft : List String) → IsValid q [] → Pops q (pop r g q soft)
  unfolding pop
  pop-Pops q soft h = let (s, e) = draw-IsDrawn q in branches q soft h s (draw r q).0 (draw r q).1 e

-- ===== src/RunControl/Exclusive.antt =====
-- At most one session at a time in src/blockchecks/service/run_control.py, and when.
use mathlib.Core.Path.{subst}
use blockcheck_s.Prelude.{
  ℕ, zero, suc, ◌<◌, true, false, none, eqb, ◌≡◌, ◌≢◌, refl, sym, ◌∙◌, ap, arith, Bool-cases, inl,
  inr, [],
}
use blockcheck_s.Prelude.Int.{pos}
use blockcheck_s.RunControl.{
  Os, ActiveRunInfo, LockData, Lock, absent, holds, same_pid, is_pid_alive, from_dict, is_stale,
  clear_active_run, write_run_lock_exclusive,
}
use blockcheck_s.RunControl.Race.{
  Phase, outside, contended, last_attempt, removing, session, refused, finished, seen, Host,
  payload_of, moved, first_write, last_write, read_step, judge_step, Step, Run, here, next, writes,
  reads, judges, removes, writes_last, ends,
}
use blockcheck_s.RunControl.Owned.{
  AllLive, IsKnown, IsOwned, IsGood, the_same, contended-ne-session, quiet, enter, leave,
  moved-IsKnown,
}

module _ (os : Os) (live : AllLive os) where
  abbrev info_of : ℕ → ActiveRunInfo
  info_of q = record {
    pid = pos q;
    command = "full";
    started_at = "";
    db_path = none;
    cwd = none;
    argv = [];
  }

  read_other :
      (p q : ℕ) → 0 < q → eqb q p ≡ false → read_step os p (holds (payload_of q)) ≡ seen (info_of q)
  unfolding read_step from_dict is_stale
  read_other p q big apart = ground (arith, live.alive q big, live.campaign q, apart)

  judge_other :
      (p : ℕ) (info : ActiveRunInfo) → IsKnown p (seen info) → judge_step os p info ≡ refused
  unfolding judge_step
  judge_other p info (q, e, big, apart) =
      let known : same_pid info.pid (pos p) ≡ false =
        subst (λ x. same_pid x (pos p) ≡ false) (sym e) apart in
      let up : is_pid_alive os info.pid ≡ true =
        subst (λ x. is_pid_alive os x ≡ true) (sym e) (live.alive q big) in
      ground (arith, known, up)

  -- What is wanted of the lock and the phase that a step of `p` leaves.
  abbrev IsNext : Host → ℕ → Lock → Phase → Type 0
  IsNext h p lock to = IsOwned (moved h p lock to) × IsKnown p to

  module _ (h : Host) (p : ℕ) (big : 0 < p) (k : (r : ℕ) → 0 < r → IsKnown r (h.phase r)) where
    write-IsNext :
        (from : Phase)
        → h.phase p ≡ from
        → from ≢ session
        → (write : Lock → Lock × Phase) (late : Phase) → late ≢ session
        → IsKnown p late
        → write absent ≡ (holds (payload_of p), session)
        → ((d : LockData) → write (holds d) ≡ (holds d, late))
        → IsOwned h
        → IsNext h p (write h.lock).0 (write h.lock).1
    write-IsNext from at nf write late nl kl ea eh (inl (free, nobody)) =
        subst (λ l. IsNext h p (write l).0 (write l).1) (sym free)
          (subst (λ (r : Lock × Phase). IsNext h p r.0 r.1) (sym ea) (enter h p big nobody, tt))
    write-IsNext from at nf write late nl kl ea eh (inr (q, bq, l, s, alone)) =
        let still = quiet h p from late at nf nl (inr (q, bq, l, s, alone)) in
        subst (λ x. IsNext h p (write x).0 (write x).1) (sym l)
          (subst (λ (r : Lock × Phase). IsNext h p r.0 r.1) (sym (eh (payload_of q)))
            (subst (λ x. IsOwned (moved h p x late)) l still, kl))

    read-IsNext : h.phase p ≡ contended → IsOwned h → IsNext h p h.lock (read_step os p h.lock)
    unfolding read_step
    read-IsNext at (inl (free, nobody)) =
        subst (λ l. IsNext h p h.lock (read_step os p l)) (sym free)
          (quiet h p contended last_attempt at (λ e. cc e) (λ e. cc e) (inl (free, nobody)), tt)
    read-IsNext at (inr (q, bq, l, s, alone)) =
        let apart : eqb q p ≡ false = elim (Bool-cases (eqb q p)) [
          | inl same ↦
              absurd (contended-ne-session (sym at ∙ ap h.phase (sym (the_same q p same)) ∙ s))
          | inr other ↦ other
        ] in
        let still =
          quiet h p contended (seen (info_of q)) at (λ e. cc e) (λ e. cc e)
            (inr (q, bq, l, s, alone)) in
        subst (λ x. IsNext h p h.lock (read_step os p x)) (sym l)
          (subst (λ x. IsNext h p h.lock x) (sym (read_other p q bq apart))
            (still, (q, refl, bq, apart)))

    judge-IsNext :
        (info : ActiveRunInfo)
        → h.phase p ≡ seen info
        → IsOwned h
        → IsNext h p h.lock (judge_step os p info)
    judge-IsNext info at o =
        let kp = subst (IsKnown p) at (k p big) in
        subst (IsNext h p h.lock) (sym (judge_other p info kp))
          (quiet h p (seen info) refused at (λ e. cc e) (λ e. cc e) o, tt)

  big_of :
      (h : Host) (p : ℕ) (from : Phase)
      → h.phase 0 ≡ refused
      → h.phase p ≡ from
      → from ≢ refused
      → 0 < p
  big_of h zero from z at n = absurd (n (sym at ∙ z))
  big_of h (suc p) from z at n = omega arith

  moved-IsGood :
      (h : Host) (p : ℕ) (lock : Lock) (to : Phase)
      → 0 < p
      → IsGood h
      → IsNext h p lock to
      → IsGood (moved h p lock to)
  moved-IsGood h p lock to big g (o, kb) = record {
    known = moved-IsKnown h p lock to kb g.known;
    owned = o;
    positive = ground (arith, g.positive, big);
  }

  Step-IsGood : (a b : Host) → Step os a b → IsGood a → IsGood b
  unfolding first_write last_write write_run_lock_exclusive clear_active_run
  Step-IsGood _ _ (writes _ h p at) g =
      let big = big_of h p outside g.positive at (λ e. cc e) in
      moved-IsGood h p _ _ big g (
        write-IsNext h p big g.known outside at (λ e. cc e) (first_write p) contended (λ e. cc e) tt
          refl (λ d. refl) g.owned)
  Step-IsGood _ _ (writes_last _ h p at) g =
      let big = big_of h p last_attempt g.positive at (λ e. cc e) in
      moved-IsGood h p _ _ big g (
        write-IsNext h p big g.known last_attempt at (λ e. cc e) (last_write p) refused (λ e. cc e)
          tt refl (λ d. refl) g.owned)
  Step-IsGood _ _ (reads _ h p at) g =
      let big = big_of h p contended g.positive at (λ e. cc e) in
      moved-IsGood h p h.lock (read_step os p h.lock) big g (read-IsNext h p big g.known at g.owned)
  Step-IsGood _ _ (judges _ h p info at) g =
      let big = big_of h p (seen info) g.positive at (λ e. cc e) in
      moved-IsGood h p h.lock (judge_step os p info) big g
        (judge-IsNext h p big g.known info at g.owned)
  Step-IsGood _ _ (removes _ h p at) g =
      let big = big_of h p removing g.positive at (λ e. cc e) in
      absurd (subst (IsKnown p) at (g.known p big))
  Step-IsGood _ _ (ends _ h p at) g =
      let big = big_of h p session g.positive at (λ e. cc e) in
      moved-IsGood h p absent finished big g (leave h p at g.owned, tt)

  Run-IsGood : (a b : Host) → Run os a b → IsGood a → IsGood b
  Run-IsGood _ _ (here _ h) g = g
  Run-IsGood _ _ (next _ a b c step run) g = Run-IsGood b c run (Step-IsGood a b step g)

  -- If the lock is missing at the start, and as long as every process is alive and looks like a
  -- campaign, at most one process is in its session, in any interleaving of any number of processes;
  -- and then the lock is its own.
  pub Run-exclusive :
      (a b : Host) (p : ℕ)
      → IsGood a
      → Run os a b
      → b.phase p ≡ session
      → (b.lock ≡ holds (payload_of p)) × ((r : ℕ) → b.phase r ≡ session → r ≡ p)
  Run-exclusive a b p g run at = elim (Run-IsGood a b run g).owned [
    | inl (free, nobody) ↦ absurd (nobody p at)
    | inr (q, big, l, s, alone) ↦
        let same = alone p at in
        (l ∙ ap (λ x. holds (payload_of x)) (sym same), λ r e. alone r e ∙ sym same)
  ]

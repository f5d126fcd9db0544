-- ===== src/RunControl/Tests.antt =====
-- src/blockchecks/service/run_control.py at small inputs.
use blockcheck_s.Prelude.{
  ℕ, zero, suc, ◌<◌, true, false, none, some, [], ◌∷◌, ◌≡◌, refl, arith, inl,
}
use blockcheck_s.Prelude.Int.{pos}
use blockcheck_s.Prelude.Text.{contains_text}
use blockcheck_s.RunControl.{
  Os, delivered, no_process, Lock, absent, broken, holds, is_pid_alive, cmdline_looks_like_campaign,
  from_dict, is_stale, read_active_run, register_active_run, failed_to_acquire, run_session,
  clear_active_run, write_run_lock_exclusive, request_graceful_stop, write_or_exit,
}
use blockcheck_s.RunControl.Register.{
  IsRegistration, register_active_run-IsRegistration, run_session_lem,
}
use blockcheck_s.RunControl.Stop.{IsStop, request_graceful_stop-IsStop}
use blockcheck_s.RunControl.Race.{
  Phase, outside, session, refused, last_attempt, Host, payload_of, moved, first_write, last_write,
  read_step, Run, here, next, writes, reads, removes, writes_last,
}
use blockcheck_s.RunControl.Owned.{AllLive, IsKnown, IsGood}
use blockcheck_s.RunControl.Exclusive.{Run-exclusive}

abbrev live_os : Os
live_os = record { probe = λ p. delivered; cmdline = λ p. some "bin/bs full" }

-- No process is left.
abbrev dead_os : Os
dead_os = record { probe = λ p. no_process; cmdline = λ p. none }

register_active_run-IsRegistration_example :
    IsRegistration live_os
      (pos 5)
      (payload_of 5)
      (holds (payload_of 7))
      (register_active_run live_os true (pos 5) (payload_of 5) (holds (payload_of 7)))
register_active_run-IsRegistration_example =
    register_active_run-IsRegistration live_os (pos 5) (payload_of 5) (holds (payload_of 7))

-- A session takes a stale lock and leaves none.
session_takes_stale :
    run_session dead_os true (pos 5) (payload_of 5) (holds (payload_of 7)) ≡ (absent, true)
unfolding from_dict is_stale is_pid_alive
session_takes_stale = run_session_lem dead_os (pos 5) (payload_of 5) (holds (payload_of 7))

-- The process goes at the second answer.
request_graceful_stop-IsStop_example :
    IsStop false
      (true ∷ false ∷ [])
      delivered
      []
      (read_active_run live_os true (pos 5) (holds (payload_of 7))).0
      (request_graceful_stop live_os true
        (pos 5)
        false
        delivered
        (true ∷ false ∷ [])
        delivered
        []
        (holds (payload_of 7)))
request_graceful_stop-IsStop_example =
    request_graceful_stop-IsStop live_os (pos 5) false delivered (true ∷ false ∷ []) delivered []
      (holds (payload_of 7))

-- A lock file that cannot be read is refused, whoever is alive.
broken_lock :
    register_active_run dead_os true (pos 5) (payload_of 5) broken ≡ (broken, failed_to_acquire)
unfolding register_active_run read_active_run write_run_lock_exclusive write_or_exit
broken_lock = refl

abbrev start_phase : ℕ → Phase
start_phase zero = refused
start_phase (suc n) = outside

abbrev start : Lock → Host
start lock = record { lock = lock; phase = start_phase }

all_live : AllLive live_os
unfolding is_pid_alive cmdline_looks_like_campaign contains_text
all_live = record { alive = λ p big. ground arith; campaign = λ p. refl }

start_phase-IsKnown : (p : ℕ) → 0 < p → IsKnown p (start_phase p)
start_phase-IsKnown zero big = absurd (omega (arith, big))
start_phase-IsKnown (suc n) big = tt

start-IsGood : IsGood (start absent)
start-IsGood = record {
  known = start_phase-IsKnown;
  owned = inl (refl, λ p e. ground (arith, e));
  positive = refl;
}

abbrev entered : Host
entered = moved (start absent) 1 (first_write 1 absent).0 (first_write 1 absent).1

Run-exclusive_example :
    (entered.lock ≡ holds (payload_of 1)) × ((r : ℕ) → entered.phase r ≡ session → r ≡ 1)
unfolding first_write write_run_lock_exclusive
Run-exclusive_example =
    Run-exclusive live_os all_live (start absent) entered 1 start-IsGood
      (next live_os (start absent) entered entered (writes live_os (start absent) 1 refl)
        (here live_os entered))
      refl

-- The race of two processes for the lock of a dead one: both read it, the first removes it and enters
-- its session, and then the second one removes the lock of the first and enters its own.
abbrev after : ℕ → Host → Lock × Phase → Host
after p h x = moved h p x.0 x.1

abbrev h0 : Host
h0 = start (holds (payload_of 7))

abbrev h1 : Host
h1 = after 1 h0 (first_write 1 h0.lock)

abbrev h2 : Host
h2 = after 2 h1 (first_write 2 h1.lock)

abbrev h3 : Host
h3 = moved h2 1 h2.lock (read_step dead_os 1 h2.lock)

abbrev h4 : Host
h4 = moved h3 2 h3.lock (read_step dead_os 2 h3.lock)

abbrev h5 : Host
h5 = moved h4 1 (clear_active_run true h4.lock) last_attempt

abbrev h6 : Host
h6 = after 1 h5 (last_write 1 h5.lock)

abbrev h7 : Host
h7 = moved h6 2 (clear_active_run true h6.lock) last_attempt

abbrev h8 : Host
h8 = after 2 h7 (last_write 2 h7.lock)

race : Run dead_os h0 h8
unfolding first_write last_write read_step clear_active_run write_run_lock_exclusive from_dict
    is_stale is_pid_alive
race = next dead_os h0 h1 h8 (writes dead_os h0 1 refl) (
    next dead_os h1 h2 h8 (writes dead_os h1 2 refl) (
      next dead_os h2 h3 h8 (reads dead_os h2 1 refl) (
        next dead_os h3 h4 h8 (reads dead_os h3 2 refl) (
          next dead_os h4 h5 h8 (removes dead_os h4 1 refl) (
            next dead_os h5 h6 h8 (writes_last dead_os h5 1 refl) (
              next dead_os h6 h7 h8 (removes dead_os h6 2 refl)
                (next dead_os h7 h8 h8 (writes_last dead_os h7 2 refl) (here dead_os h8))))))))

both_in_session : (h8.phase 1 ≡ session) × (h8.phase 2 ≡ session)
unfolding first_write last_write clear_active_run write_run_lock_exclusive
both_in_session = (refl, refl)

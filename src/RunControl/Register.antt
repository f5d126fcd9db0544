-- ===== src/RunControl/Register.antt =====
-- `register_active_run` of src/blockchecks/service/run_control.py on each kind of lock file.
use blockcheck_s.Prelude.{
  Bool, true, false, ◌||◌, Option, none, some, if◌then◌else◌, ◌≡◌, ◌≢◌, refl, arith,
}
use blockcheck_s.Prelude.Int.{ℤ}
use blockcheck_s.RunControl.{
  Os, ActiveRunInfo, LockData, Lock, absent, broken, holds, Registered, registered, same_pid,
  from_dict, is_stale, clear_active_run, read_active_run, write_run_lock_exclusive, write_or_exit,
  register_active_run, run_session,
}

-- A lock that stands for no other live campaign: none at all, that of this process, or a stale one.
-- A file without a readable object is not free.
abbrev pub is_free_for : Os → ℤ → Option ActiveRunInfo → Bool
is_free_for os own none = false
is_free_for os own (some info) = same_pid info.pid own || is_stale os own info

abbrev pub is_free : Os → ℤ → Lock → Bool
is_free os own absent = true
is_free os own broken = false
is_free os own (holds d) = is_free_for os own (from_dict d)

-- Free: the process registers, and the lock is its own. Not free: it exits, and the lock is as it was.
abbrev pub IsRegistration : Os → ℤ → LockData → Lock → Lock × Registered → Type 0
IsRegistration os own payload lock r =
    (is_free os own lock ≡ true → r ≡ (holds payload, registered))
    × (is_free os own lock ≡ false → (r.0 ≡ lock) × (r.1 ≢ registered))

-- While no other process touches the lock, and if it can be removed, `register_active_run` takes a
-- lock that is missing, its own or stale, and else exits and leaves the lock as it was: it never takes
-- the lock of a live campaign, and never removes a file that it cannot read.
pub register_active_run-IsRegistration :
    (os : Os) (own : ℤ) (payload : LockData) (lock : Lock)
    → IsRegistration os own payload lock (register_active_run os true own payload lock)
unfolding register_active_run write_run_lock_exclusive read_active_run write_or_exit
    clear_active_run is_stale
register_active_run-IsRegistration os own payload absent = (λ f. refl, λ f. absurd (cc f))
register_active_run-IsRegistration os own payload broken =
    (λ f. absurd (cc f), λ f. (refl, λ e. cc e))
register_active_run-IsRegistration os own payload (holds d) =
    (λ f. ground arith, λ f. (ground arith, ground arith))

-- After a session the lock is gone, if the session ran, and is as it was, if it was refused.
pub run_session_lem :
    (os : Os) (own : ℤ) (payload : LockData) (lock : Lock)
    → run_session os true own payload lock
      ≡ (if is_free os own lock then absent else lock, is_free os own lock)
unfolding run_session clear_active_run
run_session_lem os own payload lock =
    ground (arith, register_active_run-IsRegistration os own payload lock)

-- ===== src/RunControl/Stop.antt =====
-- `request_graceful_stop` of src/blockchecks/service/run_control.py: its exit codes and the lock.
use blockcheck_s.Prelude.{
  Bool, true, false, ◌&&◌, ◌||◌, List, ◌≡◌, refl, arith, if_both, option_split, ◌≤◌,
}
use blockcheck_s.Prelude.Int.{ℤ}
use blockcheck_s.RunControl.{
  Os, Signalled, delivered, no_process, not_permitted, Lock, absent, Stopped, same_pid, exit_code,
  exits_in_time, clear_active_run, read_active_run, after_kill, after_term, request_graceful_stop,
}

-- That the process has gone is what one of its answers said, or the signal that could not be sent.
abbrev pub is_gone : Bool → List Bool → Signalled → List Bool → Bool
is_gone force polls no_process kill_polls = exits_in_time polls || force
is_gone force polls delivered kill_polls = exits_in_time polls || force && exits_in_time kill_polls
is_gone force polls not_permitted kill_polls = exits_in_time polls

-- What is promised of the end of a stop: `lock` is the lock that was read.
abbrev pub IsStop : Bool → List Bool → Signalled → List Bool → Lock → Lock × Stopped → Type 0
IsStop force polls kill kill_polls lock r =
    (exit_code r.1 ≡ 0 → (r.0 ≡ absent) × (is_gone force polls kill kill_polls ≡ true))
    × (exit_code r.1 ≡ 1 → (r.0 ≡ lock) × (is_gone force polls kill kill_polls ≡ false))
    × (exit_code r.1 ≤ 2)

after_term-IsStop :
    (force : Bool) (term : Signalled) (polls : List Bool) (kill : Signalled)
    (kill_polls : List Bool) (lock : Lock)
    → IsStop force polls kill kill_polls lock
        (after_term true force term polls kill kill_polls lock)
unfolding after_term after_kill clear_active_run exit_code
after_term-IsStop force no_process polls kill kill_polls lock =
    (λ e. absurd (cc e), λ e. absurd (cc e), omega arith)
after_term-IsStop force not_permitted polls kill kill_polls lock =
    (λ e. absurd (cc e), λ e. absurd (cc e), omega arith)
after_term-IsStop force delivered polls no_process kill_polls lock =
    (λ e. ground arith, λ e. ground arith, ground arith)
after_term-IsStop force delivered polls not_permitted kill_polls lock =
    (λ e. ground arith, λ e. ground arith, ground arith)
after_term-IsStop force delivered polls delivered kill_polls lock =
    (λ e. ground arith, λ e. ground arith, ground arith)

-- If the lock can be removed, `bs stop` exits with 0, 1 or 2. With 0 the lock is gone, and the process
-- was seen to be gone in time, after SIGTERM or, with `force`, after SIGKILL. With 1 the lock is as it
-- was read, and the process was not seen to be gone.
pub request_graceful_stop-IsStop :
    (os : Os) (own : ℤ) (force : Bool) (term : Signalled) (polls : List Bool) (kill : Signalled)
    (kill_polls : List Bool) (lock : Lock)
    → IsStop force polls kill kill_polls
        (read_active_run os true own lock).0
        (request_graceful_stop os true own force term polls kill kill_polls lock)
unfolding request_graceful_stop exit_code
request_graceful_stop-IsStop os own force term polls kill kill_polls lock =
    let P = IsStop force polls kill kill_polls (read_active_run os true own lock).0 in
    let refused : (s : Stopped) → exit_code s ≡ 2 → P ((read_active_run os true own lock).0, s) =
      λ s e.
        (λ z. absurd (omega (arith, e, z)), λ z. absurd (omega (arith, e, z)), omega (arith, e)) in
    option_split {B = Lock × Stopped} P (read_active_run os true own lock).1 _ _
      (λ none_found. refused Stopped.no_active_run refl)
      (λ info found.
        if_both {A = Lock × Stopped} P (same_pid info.pid own) _ _ (refused Stopped.refuse_own refl)
          (after_term-IsStop force term polls kill kill_polls (read_active_run os true own lock).0))

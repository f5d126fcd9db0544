-- ===== src/RunControl.antt =====
-- src/blockchecks/service/run_control.py: the run.lock of a campaign, and `bs stop`. What the system
-- answers is an argument: the state of a process, its command line, the outcomes of signals. Of the
-- lock file it is kept what `json.loads` and `int` make of it. Its directory can be written to.
pub mod Register
pub mod Stop
pub mod Race
pub mod Owned
pub mod Exclusive
mod Tests
use blockcheck_s.Prelude.{
  ℕ, zero, suc, Bool, true, false, ◌&&◌, ◌||◌, not, String, Option, none, some, List, [], ◌∷◌,
  string_eq, eqb, ◌==◌, if◌then◌else◌,
}
use blockcheck_s.Prelude.Int.{ℤ, pos, negsuc}
use blockcheck_s.Prelude.Text.{contains_text}

abbrev pub same_pid : ℤ → ℤ → Bool
same_pid (pos a) (pos b) = eqb a b
same_pid (negsuc a) (negsuc b) = eqb a b
same_pid (pos a) (negsuc b) = false
same_pid (negsuc a) (pos b) = false

-- What `os.kill(pid, 0)` does: it returns, or raises ProcessLookupError or PermissionError.
pub data Signalled : Type 0 where
  delivered no_process not_permitted : Signalled

pub record Os : Type 0 where
  pub probe : ℤ → Signalled
  -- the command line under /proc, `none` where it cannot be read
  pub cmdline : ℤ → Option String

unfoldable pub is_pid_alive : Os → ℤ → Bool
is_pid_alive os (negsuc n) = false
is_pid_alive os (pos zero) = false
is_pid_alive os (pos (suc n)) = elim (os.probe (pos (suc n))) [
  | delivered ↦ true
  | no_process ↦ false
  | not_permitted ↦ true
]

unfoldable pub cmdline_looks_like_campaign : Os → ℤ → Bool
unfolding contains_text
cmdline_looks_like_campaign os pid = elim (os.cmdline pid) [
  | none ↦ true
  | some text ↦
      if text == "" then true else contains_text text "blockchecks" || contains_text text "bin/bs"
]

pub record ActiveRunInfo : Type 0 where
  pub pid : ℤ
  pub command : String
  pub started_at : String
  pub db_path : Option String
  pub cwd : Option String
  pub argv : List String

-- The object in the lock file: `pid` is what `int(data["pid"])` gives, `none` where it raises, and
-- another field is `none` where it is missing or null.
pub record LockData : Type 0 where
  pub pid : Option ℤ
  pub command : Option String
  pub started_at : Option String
  pub db_path : Option String
  pub cwd : Option String
  pub argv : Option (List String)

-- `x or default` of a text that may be missing
abbrev pub text_or : Option String → String → String
text_or none d = d
text_or (some s) d = if s == "" then d else s

-- `x or None`
abbrev pub text_or_none : Option String → Option String
text_or_none none = none
text_or_none (some s) = if s == "" then none else some s

abbrev pub list_or : Option (List String) → List String
list_or none = []
list_or (some xs) = xs

unfoldable pub from_dict : LockData → Option ActiveRunInfo
from_dict data_read = elim data_read.pid [
  | none ↦ none
  | some pid ↦ some (record {
    pid = pid;
    command = text_or data_read.command "unknown";
    started_at = text_or data_read.started_at "";
    db_path = text_or_none data_read.db_path;
    cwd = text_or_none data_read.cwd;
    argv = list_or data_read.argv;
  })
]

-- The file: missing, without a readable object, or with one.
pub data Lock : Type 0 where
  absent broken : Lock
  holds : LockData → Lock

-- `clear_active_run`: an error of `unlink` is swallowed.
unfoldable pub clear_active_run : Bool → Lock → Lock
clear_active_run can_unlink lock = if can_unlink then absent else lock

-- Whether `read_active_run` takes the lock for that of a run that has gone.
unfoldable pub is_stale : Os → ℤ → ActiveRunInfo → Bool
is_stale os own info =
    not (same_pid info.pid own)
    && (not (is_pid_alive os info.pid) || not (cmdline_looks_like_campaign os info.pid))

-- `read_active_run` of the process `own`
unfoldable pub read_active_run : Os → Bool → ℤ → Lock → Lock × Option ActiveRunInfo
read_active_run os can_unlink own absent = (absent, none)
read_active_run os can_unlink own broken = (broken, none)
read_active_run os can_unlink own (holds d) = elim (from_dict d) [
  | none ↦ (holds d, none)
  | some info ↦
      if is_stale os own info
      then (clear_active_run can_unlink (holds d), none)
      else (holds d, some info)
]

-- `_write_run_lock_exclusive`, and whether it wrote: if not, it raises FileExistsError.
unfoldable pub write_run_lock_exclusive : LockData → Lock → Lock × Bool
write_run_lock_exclusive payload absent = (holds payload, true)
write_run_lock_exclusive payload broken = (broken, false)
write_run_lock_exclusive payload (holds d) = (holds d, false)

-- How `register_active_run` ends: it returns, or exits with one of its two messages.
pub data Registered : Type 0 where
  registered failed_to_acquire : Registered
  already_registered : ActiveRunInfo → Registered

-- The last attempt of each branch.
unfoldable pub write_or_exit : LockData → Lock → Lock × Registered
write_or_exit payload lock =
    let (lock', wrote) = write_run_lock_exclusive payload lock in
    (lock', if wrote then registered else failed_to_acquire)

-- `register_active_run` of the process `own`, while no other process touches the lock.
unfoldable pub register_active_run : Os → Bool → ℤ → LockData → Lock → Lock × Registered
register_active_run os can_unlink own payload lock =
    let (first, wrote) = write_run_lock_exclusive payload lock in
    let (lock', existing) = read_active_run os can_unlink own lock in
    if wrote then (first, registered) else elim existing [
      | none ↦ write_or_exit payload lock'
      | some info ↦
          if same_pid info.pid own
          then write_or_exit payload (clear_active_run can_unlink lock')
          else if is_pid_alive os info.pid
          then (lock', already_registered info)
          else write_or_exit payload (clear_active_run can_unlink lock')
    ]

-- The messages of `request_graceful_stop`, each with its exit code.
pub data Stopped : Type 0 where
  no_active_run refuse_own stale_lock denied_term : Stopped
  stopped exited_before_kill denied_kill force_killed still_alive timed_out : Stopped

unfoldable pub exit_code : Stopped → ℕ
exit_code no_active_run = 2
exit_code refuse_own = 2
exit_code stale_lock = 2
exit_code denied_term = 2
exit_code stopped = 0
exit_code exited_before_kill = 0
exit_code denied_kill = 2
exit_code force_killed = 0
exit_code still_alive = 1
exit_code timed_out = 1

-- A loop that asks `is_pid_alive` until the deadline: the answers that it gets in time.
unfoldable pub exits_in_time : List Bool → Bool
exits_in_time [] = false
exits_in_time (alive ∷ more) = let rest = exits_in_time more in if not alive then true else rest

-- What follows SIGKILL.
unfoldable pub after_kill : Bool → Signalled → List Bool → Lock → Lock × Stopped
after_kill can_unlink no_process polls lock = (clear_active_run can_unlink lock, exited_before_kill)
after_kill can_unlink not_permitted polls lock = (lock, denied_kill)
after_kill can_unlink delivered polls lock =
    if exits_in_time polls
    then (clear_active_run can_unlink lock, force_killed)
    else (lock, still_alive)

-- What follows SIGTERM.
unfoldable pub after_term :
    Bool → Bool → Signalled → List Bool → Signalled → List Bool → Lock → Lock × Stopped
after_term can_unlink force no_process polls kill kill_polls lock =
    (clear_active_run can_unlink lock, stale_lock)
after_term can_unlink force not_permitted polls kill kill_polls lock = (lock, denied_term)
after_term can_unlink force delivered polls kill kill_polls lock =
    if exits_in_time polls
    then (clear_active_run can_unlink lock, stopped)
    else if force
    then after_kill can_unlink kill kill_polls lock
    else (lock, timed_out)

-- `request_graceful_stop`: the outcomes of the two signals, and the answers of the two loops.
unfoldable pub request_graceful_stop :
    Os → Bool → ℤ → Bool → Signalled → List Bool → Signalled → List Bool → Lock → Lock × Stopped
request_graceful_stop os can_unlink own force term polls kill kill_polls lock =
    let (lock', found) = read_active_run os can_unlink own lock in
    elim found [
      | none ↦ (lock', no_active_run)
      | some info ↦
          if same_pid info.pid own
          then (lock', refuse_own)
          else after_term can_unlink force term polls kill kill_polls lock'
    ]

-- `run_session`: what the lock is after it, and whether its body ran. Whether the body raises makes no
-- difference to the lock.
unfoldable pub run_session : Os → Bool → ℤ → LockData → Lock → Lock × Bool
run_session os can_unlink own payload lock =
    let (lock', outcome) = register_active_run os can_unlink own payload lock in
    elim outcome [
      | registered ↦ (clear_active_run can_unlink lock', true)
      | failed_to_acquire ↦ (lock', false)
      | already_registered info ↦ (lock', false)
    ]

-- ===== src/RunControl/Race.antt =====
-- `register_active_run` and `clear_active_run` of src/blockchecks/service/run_control.py in several processes at
-- once: each access to the lock file is one step, and the steps of the processes interleave.
use blockcheck_s.Prelude.{ℕ, true, none, some, if◌then◌else◌, eqb, ◌≡◌}
use blockcheck_s.Prelude.Int.{pos}
use blockcheck_s.RunControl.{
  Os, ActiveRunInfo, LockData, Lock, absent, broken, holds, same_pid, is_pid_alive, from_dict,
  is_stale, clear_active_run, write_run_lock_exclusive,
}

-- Where a process is: before the first attempt to write, after it failed, after a run was read, before
-- the removal of a lock, before the last attempt; in its session, refused, or after its session.
pub data Phase : Type 0 where
  outside contended last_attempt removing session refused finished : Phase
  seen : ActiveRunInfo → Phase

-- The payload of the process `p`; the other fields do not matter for the lock.
abbrev pub payload_of : ℕ → LockData
payload_of p = record {
  pid = some (pos p);
  command = some "full";
  started_at = none;
  db_path = none;
  cwd = none;
  argv = none;
}

pub record Host : Type 0 where
  pub lock : Lock
  pub phase : ℕ → Phase

abbrev pub moved : Host → ℕ → Lock → Phase → Host
moved h p lock to = record { lock = lock; phase = λ q. if eqb p q then to else h.phase q }

-- The first attempt: on FileExistsError the lock is read next.
unfoldable pub first_write : ℕ → Lock → Lock × Phase
first_write p lock =
    let (lock', wrote) = write_run_lock_exclusive (payload_of p) lock in
    (lock', if wrote then session else contended)

-- The last attempt, which exits on FileExistsError.
unfoldable pub last_write : ℕ → Lock → Lock × Phase
last_write p lock =
    let (lock', wrote) = write_run_lock_exclusive (payload_of p) lock in
    (lock', if wrote then session else refused)

-- `read_active_run` up to a removal of the lock.
unfoldable pub read_step : Os → ℕ → Lock → Phase
read_step os p absent = last_attempt
read_step os p broken = last_attempt
read_step os p (holds d) = elim (from_dict d) [
  | none ↦ last_attempt
  | some info ↦ if is_stale os (pos p) info then removing else seen info
]

-- What is done with a run that was read.
unfoldable pub judge_step : Os → ℕ → ActiveRunInfo → Phase
judge_step os p info =
    if same_pid info.pid (pos p)
    then removing
    else if is_pid_alive os info.pid
    then refused
    else removing

-- One access of the process `p`; `os` is the state of the system at that time.
pub data Step : Os → Host → Host → Type 0 where
  writes :
      (os : Os) (h : Host) (p : ℕ)
      → h.phase p ≡ outside
      → Step os h (moved h p (first_write p h.lock).0 (first_write p h.lock).1)
  reads :
      (os : Os) (h : Host) (p : ℕ)
      → h.phase p ≡ contended
      → Step os h (moved h p h.lock (read_step os p h.lock))
  judges :
      (os : Os) (h : Host) (p : ℕ) (info : ActiveRunInfo)
      → h.phase p ≡ seen info
      → Step os h (moved h p h.lock (judge_step os p info))
  removes :
      (os : Os) (h : Host) (p : ℕ)
      → h.phase p ≡ removing
      → Step os h (moved h p (clear_active_run true h.lock) last_attempt)
  writes_last :
      (os : Os) (h : Host) (p : ℕ)
      → h.phase p ≡ last_attempt
      → Step os h (moved h p (last_write p h.lock).0 (last_write p h.lock).1)
  ends :
      (os : Os) (h : Host) (p : ℕ)
      → h.phase p ≡ session
      → Step os h (moved h p (clear_active_run true h.lock) finished)

pub data Run : Os → Host → Host → Type 0 where
  here : (os : Os) (h : Host) → Run os h h
  next : (os : Os) (a b c : Host) → Step os a b → Run os b c → Run os a c

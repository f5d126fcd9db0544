-- ===== src/Netns/Shared.antt =====
-- The commands of src/blockchecks/service/netns_pool.py and the setting `ip_forward` that the pools
-- share. What a command answers, what /proc says and whether a removal raises is an argument, by the
-- number of commands so far. The state directory can be written to.
use blockcheck_s.Prelude.{
  ℕ, suc, ◌-◌, Bool, true, false, ◌&&◌, ◌||◌, not, String, Option, none, some, List, [], ◌∷◌, ◌++◌,
  string_eq, eqb, ltb, ◌==◌, if◌then◌else◌,
}
use blockcheck_s.Prelude.Text.{append, contains_text, lower, show}
use blockcheck_s.Prelude.Lists.{length}

pub record CompletedProcess : Type 0 where
  -- whether the return code is 0; it is not after a timeout
  pub succeeded : Bool
  pub stderr : String

-- What the outside answers, after so many commands.
pub record Outside : Type 0 where
  pub answer : ℕ → List String → CompletedProcess
  -- /proc/sys/net/ipv4/ip_forward, `none` where it cannot be read
  pub ip_forward : ℕ → Option String
  -- the words of each line of `ip -br link show`, and of `ip -o -4 addr show to` an address
  pub links : List (List String)
  pub addresses : ℕ → String → List (List String)
  -- whether the end of the workers in a namespace raises
  pub raises : ℕ → ℕ → Bool
  pub digest : String → String
  pub nameserver : String

-- What the pools of a process share: `_IP_FORWARD_RESTORE`, the marker file, `_ACTIVE_NS_COUNT`, and the
-- commands so far.
pub record Host : Type 0 where
  pub restore : Option String
  pub marker : Option String
  pub active : ℕ
  pub commands : List (List String)

pub record NetNsPool : Type 0 where
  pub size : ℕ
  pub base : String
  pub created : Bool
  pub names : List ℕ
  pub queue : List ℕ

abbrev pub name_of : NetNsPool → ℕ → String
name_of pool idx = append pool.base (append "-" (show idx))

-- `_raise_if_sudo_auth_failed`, and whether it raises.
unfoldable pub raise_if_sudo_auth_failed : CompletedProcess → Bool
raise_if_sudo_auth_failed r =
    not r.succeeded
    && (contains_text (lower r.stderr) "password is required"
        || contains_text (lower r.stderr) "a terminal is required")

-- `_run`: `none` where it raises.
unfoldable pub run : Outside → Bool → List String → Host → Host × Option CompletedProcess
run out check args h =
    let r = out.answer (length h.commands) args in
    (
      record h { commands = h.commands ++ args ∷ [] },
      if raise_if_sudo_auth_failed r || check && not r.succeeded then none else some r,
    )

-- Commands in turn, up to one that raises: whether none did.
unfoldable pub run_all : Outside → Bool → List (List String) → Host → Host × Bool
run_all out check [] h = (h, true)
run_all out check (args ∷ rest) h =
    let (h', r) = run out check args h in
    let more = run_all out check rest h' in elim r [ none ↦ (h', false) | some done ↦ more ]

abbrev pub sysctl : String → List String
sysctl value = "sysctl" ∷ "-w" ∷ append "net.ipv4.ip_forward=" value ∷ []

-- `_enable_ip_forward_locked`: whether it returns.
unfoldable pub enable_ip_forward_locked : Outside → Host → Host × Bool
enable_ip_forward_locked out h = elim (out.ip_forward (length h.commands)) [
  | none ↦ (h, true)
  | some current ↦
      let saved : Host = elim h.restore [
        | none ↦ record h { restore = some current; marker = some current }
        | some v ↦ h
      ] in
      if current == "1" then (h, true) else run_all out false (sysctl "1" ∷ []) saved
]

-- `_restore_ip_forward_if_idle`
unfoldable pub restore_ip_forward_if_idle : Outside → Host → Host × Bool
restore_ip_forward_if_idle out h = if ltb 0 h.active then (h, true) else elim h.restore [
  | none ↦ (record h { marker = none }, true)
  | some restore ↦
      let (h', ok) = run_all out false (sysctl restore ∷ []) (record h { restore = none }) in
      (if ok then record h' { marker = none } else h', ok)
]

-- `_track_ns_created`
unfoldable pub track_ns_created : Outside → Host → Host × Bool
track_ns_created out h =
    let (h', ok) = enable_ip_forward_locked out h in
    if eqb h.active 0
    then (if ok then record h' { active = suc h'.active } else h', ok)
    else (record h { active = suc h.active }, true)

-- `_track_ns_destroyed`
unfoldable pub track_ns_destroyed : Outside → Host → Host × Bool
track_ns_destroyed out h = restore_ip_forward_if_idle out (record h { active = h.active - 1 })

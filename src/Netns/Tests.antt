-- ===== src/Netns/Tests.antt =====
-- The pool of src/blockchecks/service/netns_pool.py at small inputs.
use blockcheck_s.Prelude.{
  ℕ, ◌≤◌, not, arith, true, false, none, some, [], ◌∷◌, string_eq, eqb, if◌then◌else◌, ◌≡◌, refl,
}
use blockcheck_s.Prelude.Text.{lower, contains_text, remove_prefix}
use blockcheck_s.Netns.Shared.{
  Outside, Host, NetNsPool, CompletedProcess, run, run_all, raise_if_sudo_auth_failed,
  restore_ip_forward_if_idle, track_ns_destroyed,
}
use blockcheck_s.Netns.Commands.{get_iface}
use blockcheck_s.Netns.{
  put, acquire, Cleaning, cleanup_ns, release, seed, drain, create_all, destroy_all,
}
use blockcheck_s.Netns.Lifecycle.{
  IsSound, IsCreation, create_all-IsCreation, IsRemoval, destroy_all-IsRemoval,
}
use blockcheck_s.Netns.Leases.{
  acquires, releases, here, next, times, filled, IsShared, Run-IsShared,
}

abbrev passed : CompletedProcess
passed = record { succeeded = true; stderr = "" }

-- The tenth command is refused by sudo.
abbrev out : Outside
out = record {
  answer = λ n args.
      if eqb n 9
      then record { succeeded = false; stderr = "sudo: a password is required" }
      else passed;
  ip_forward = λ n. some "0";
  links = ("lo" ∷ "UP" ∷ []) ∷ ("eth1" ∷ "UP" ∷ "x" ∷ []) ∷ [];
  addresses = λ n a. [];
  raises = λ n i. false;
  digest = λ name. "01234567";
  nameserver = "1.1.1.1";
}

abbrev new_host : Host
new_host = record { restore = none; marker = none; active = 0; commands = [] }

abbrev new_pool : NetNsPool
new_pool = record { size = 2; base = "bs-p"; created = false; names = []; queue = [] }

fresh : IsSound 0 new_host new_pool
fresh = record { counted = refl; idle = λ z. refl; empty = λ z. refl }

create_all-IsCreation_example : IsCreation 0 new_pool (create_all out (new_host, new_pool))
create_all-IsCreation_example = create_all-IsCreation out 0 new_host new_pool fresh refl

abbrev made : NetNsPool
made = record { size = 2; base = "bs-p"; created = true; names = 0 ∷ 1 ∷ []; queue = [] }

abbrev busy : Host
busy = record { restore = some "0"; marker = some "0"; active = 3; commands = [] }

sound : IsSound 1 busy made
sound = record { counted = refl; idle = λ z. absurd (cc z); empty = λ z. absurd (cc z) }

destroy_all-IsRemoval_example : IsRemoval 1 made (destroy_all out (busy, made))
destroy_all-IsRemoval_example = destroy_all-IsRemoval out 1 busy made sound

interface : get_iface out.links ≡ "eth1"
unfolding get_iface contains_text remove_prefix
interface = refl

abbrev held_one : NetNsPool
held_one = record { size = 2; base = "bs-p"; created = true; names = 0 ∷ 1 ∷ []; queue = 1 ∷ [] }

-- The bridge of the first namespace cannot be removed.
abbrev stuck : Cleaning
stuck = record { kills = λ idx. true; tears_down = λ idx. not (eqb idx 0) }

abbrev given_back : NetNsPool
given_back = record held_one { queue = 1 ∷ 0 ∷ [] }

distinct : (idx : ℕ) → times idx made.names ≤ 1
distinct idx = ground arith

Run-IsShared_example : (seed (drain made) ≡ some (filled made)) × IsShared made given_back []
unfolding acquire release put cleanup_ns
Run-IsShared_example = Run-IsShared made given_back [] (omega arith) distinct (
    next (filled made, []) (held_one, 0 ∷ []) (given_back, [])
      (acquires (filled made) [] 0 held_one refl)
      (next (held_one, 0 ∷ []) (given_back, []) (given_back, [])
        (releases stuck held_one [] [] 0 given_back false refl) (here (given_back, []))))

-- Where sudo refuses the restoring command, the value is forgotten, though the setting stays as it is.
abbrev refused : Outside
refused = record out {
  answer = λ n args. record { succeeded = false; stderr = "a password is required" };
}

forgotten :
    let h : Host = record { restore = some "0"; marker = some "0"; active = 1; commands = [] } in
    ((track_ns_destroyed refused h).0.restore ≡ none) × ((track_ns_destroyed refused h).1 ≡ false)
unfolding track_ns_destroyed restore_ip_forward_if_idle run_all run raise_if_sudo_auth_failed lower
    contains_text
forgotten = (refl, refl)

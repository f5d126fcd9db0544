-- ===== src/Netns/Commands.antt =====
-- The commands of `_create_one` and `_destroy_one` of src/blockchecks/service/netns_pool.py. A digest
-- has 8 digits, so the check of the length of an interface's name passes.
use blockcheck_s.Prelude.{
  ℕ, ◌+◌, Bool, true, false, ◌||◌, not, String, Option, none, some, List, [], ◌∷◌, ◌++◌, map,
  string_eq, ◌==◌, if◌then◌else◌,
}
use blockcheck_s.Prelude.Text.{append, contains_text, starts, show}
use blockcheck_s.Prelude.Lists.{length}
use blockcheck_s.Netns.Shared.{Outside, Host, NetNsPool, name_of, run, run_all}

abbrev is_veth : String → Bool
is_veth name = starts name "veth" || starts name "vh-" || starts name "vn-"

-- `_get_iface`: the first link that is up, is no loopback and is no veth pair.
unfoldable pub get_iface : List (List String) → String
get_iface [] = "eth0"
get_iface ([] ∷ rest) = get_iface rest
get_iface ((name ∷ []) ∷ rest) = get_iface rest
get_iface ((name ∷ state ∷ more) ∷ rest) =
    let next = get_iface rest in
    if not (state == "UP") || name == "lo"
    then next
    else if contains_text name "@" || is_veth name
    then next
    else name

abbrev veth_h : Outside → NetNsPool → ℕ → String
veth_h out pool idx = append "vh-" (out.digest (name_of pool idx))

abbrev veth_n : Outside → NetNsPool → ℕ → String
veth_n out pool idx = append "vn-" (out.digest (name_of pool idx))

-- An address of the subnet of `idx`.
abbrev address : ℕ → String → String
address idx last = append "10.200." (append (show (20 + idx)) last)

abbrev nat_args : Outside → ℕ → List String
nat_args out idx =
    "-s" ∷ address idx ".0/30" ∷ "-o" ∷ get_iface out.links ∷ "-j" ∷ "MASQUERADE" ∷ []

-- The interfaces that a former run left with the address of the host.
unfoldable pub stale_interfaces : List (List String) → List String
stale_interfaces [] = []
stale_interfaces ([] ∷ rest) = stale_interfaces rest
stale_interfaces ((a ∷ []) ∷ rest) = stale_interfaces rest
stale_interfaces ((a ∷ old_iface ∷ more) ∷ rest) =
    let left = stale_interfaces rest in if is_veth old_iface then old_iface ∷ left else left

abbrev in_ns : String → List String → List String
in_ns name args = "ip" ∷ "netns" ∷ "exec" ∷ name ∷ args

-- The commands of `_create_one` that must succeed, up to those of IPv6.
unfoldable pub set_up : Outside → NetNsPool → ℕ → List (List String)
set_up out pool idx =
    let name = name_of pool idx in
    let h = veth_h out pool idx in
    let n = veth_n out pool idx in
    ("ip" ∷ "netns" ∷ "add" ∷ name ∷ [])
    ∷ ("ip" ∷ "link" ∷ "add" ∷ h ∷ "type" ∷ "veth" ∷ "peer" ∷ "name" ∷ n ∷ [])
    ∷ ("ip" ∷ "link" ∷ "set" ∷ n ∷ "netns" ∷ name ∷ [])
    ∷ ("ip" ∷ "addr" ∷ "add" ∷ address idx ".1/30" ∷ "dev" ∷ h ∷ [])
    ∷ ("ip" ∷ "link" ∷ "set" ∷ h ∷ "up" ∷ [])
    ∷ in_ns name ("ip" ∷ "addr" ∷ "add" ∷ address idx ".2/30" ∷ "dev" ∷ n ∷ [])
    ∷ in_ns name ("ip" ∷ "link" ∷ "set" ∷ n ∷ "up" ∷ [])
    ∷ in_ns name ("ip" ∷ "link" ∷ "set" ∷ "lo" ∷ "up" ∷ [])
    ∷ []

unfoldable pub ipv6_off : Outside → NetNsPool → ℕ → List (List String)
ipv6_off out pool idx =
    map {B = List String}
      (λ iface.
        in_ns (name_of pool idx)
          ("sysctl" ∷ "-w" ∷ append "net.ipv6.conf." (append iface ".disable_ipv6=1") ∷ []))
      ("all" ∷ "default" ∷ veth_n out pool idx ∷ [])

unfoldable pub routing : Outside → NetNsPool → ℕ → List (List String)
routing out pool idx =
    in_ns (name_of pool idx) ("ip" ∷ "route" ∷ "add" ∷ "default" ∷ "via" ∷ address idx ".1" ∷ [])
    ∷ []

unfoldable pub forwarding : Outside → NetNsPool → ℕ → String → List (List String)
forwarding out pool idx flag =
    ("iptables" ∷ flag ∷ "FORWARD" ∷ "-i" ∷ veth_h out pool idx ∷ "-j" ∷ "ACCEPT" ∷ [])
    ∷ ("iptables" ∷ flag ∷ "FORWARD" ∷ "-o" ∷ veth_h out pool idx ∷ "-j" ∷ "ACCEPT" ∷ [])
    ∷ []

abbrev pub nat_rule : List String → Outside → ℕ → List String
nat_rule how out idx = "iptables" ∷ "-t" ∷ "nat" ∷ how ++ nat_args out idx

-- The rule of NAT, if it is not there.
unfoldable pub add_nat : Outside → ℕ → Host → Host × Bool
add_nat out idx h =
    let (h', chk) = run out false (nat_rule ("-C" ∷ "POSTROUTING" ∷ []) out idx) h in
    elim chk [
      | none ↦ (h', false)
      | some r ↦
          if r.succeeded
          then (h', true)
          else run_all out true (nat_rule ("-I" ∷ "POSTROUTING" ∷ "1" ∷ []) out idx ∷ []) h'
    ]

-- The directory, and the text that `tee` is given.
unfoldable pub dns : Outside → NetNsPool → ℕ → List (List String)
dns out pool idx =
    let dir = append "/etc/netns/" (name_of pool idx) in
    ("mkdir" ∷ "-p" ∷ dir ∷ [])
    ∷ ("tee" ∷ append dir "/resolv.conf" ∷ append "nameserver " out.nameserver ∷ [])
    ∷ []

-- One part after another, up to one that raises.
unfoldable pub and_then : Host × Bool → (Host → Host × Bool) → Host × Bool
and_then (h, ok) next = if ok then next h else (h, false)

-- What `_create_one` runs: whether it gets to the end. The removal of stale interfaces never raises.
unfoldable pub create_commands : Outside → NetNsPool → ℕ → Host → Host × Bool
create_commands out pool idx h =
    let delete_link : String → List String = λ link. "ip" ∷ "link" ∷ "delete" ∷ link ∷ [] in
    let leftovers =
      ("ip" ∷ "netns" ∷ "delete" ∷ name_of pool idx ∷ [])
      ∷ delete_link (veth_h out pool idx)
      ∷ [] in
    let stale : Host → List (List String) = λ a.
      map {B = List String} delete_link
        (stale_interfaces (out.addresses (length a.commands) (address idx ".1"))) in
    and_then (run_all out false leftovers h) (λ a.
      and_then (run_all out true (set_up out pool idx) (run_all out false (stale a) a).0) (λ b.
        and_then (run_all out false (ipv6_off out pool idx) b) (λ c.
          and_then (run_all out true (routing out pool idx) c) (λ d.
            and_then (run_all out false (forwarding out pool idx "-A") d)
              (λ e. and_then (add_nat out idx e) (λ f. run_all out true (dns out pool idx) f))))))

-- The commands after that of the namespace itself.
unfoldable pub destroy_more : Outside → NetNsPool → ℕ → List (List String)
destroy_more out pool idx =
    ("ip" ∷ "link" ∷ "delete" ∷ veth_h out pool idx ∷ []) ∷ forwarding out pool idx "-D"
    ++ nat_rule ("-D" ∷ "POSTROUTING" ∷ []) out idx
      ∷ ("rm" ∷ "-rf" ∷ append "/etc/netns/" (name_of pool idx) ∷ [])
      ∷ []

-- The part of `_destroy_one` that it tries: what it returns, `none` where it raises.
unfoldable pub destroy_commands : Outside → NetNsPool → ℕ → Host → Host × Option Bool
destroy_commands out pool idx h =
    let (h', netns_rc) = run out false ("ip" ∷ "netns" ∷ "delete" ∷ name_of pool idx ∷ []) h in
    let (h'', ok) = run_all out false (destroy_more out pool idx) h' in
    if out.raises (length h.commands) idx
    then (h, none)
    else elim netns_rc [ none ↦ (h', none) | some r ↦ (h'', if ok then some r.succeeded else none) ]

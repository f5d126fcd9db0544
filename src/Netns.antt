-- ===== src/Netns.antt =====
-- src/blockchecks/service/netns_pool.py: the pool of network namespaces. A name of the pool stands for
-- its index. Children: Shared and Commands are the commands that it runs, and the count of namespaces;
-- Forward is what they keep, Rollback and Lifecycle are the creation and the removal of a pool, Leases
-- is its queue.
pub mod Shared
pub mod Commands
pub mod Forward
pub mod Rollback
pub mod Lifecycle
pub mod Leases
mod Tests
use blockcheck_s.Prelude.{
  ℕ, zero, suc, ◌+◌, ◌-◌, Bool, true, false, ◌&&◌, ◌||◌, not, String, Option, none, some, List, [],
  ◌∷◌, ◌++◌, map, string_eq, eqb, ltb, leb, ◌==◌, if◌then◌else◌,
}
use blockcheck_s.Prelude.Text.{append, contains_text, lower, starts, show}
use blockcheck_s.Prelude.Lists.{length}
use blockcheck_s.Netns.Shared.{
  CompletedProcess, Outside, Host, NetNsPool, name_of, raise_if_sudo_auth_failed, run, run_all,
  sysctl, enable_ip_forward_locked, restore_ip_forward_if_idle, track_ns_created,
  track_ns_destroyed,
}
use blockcheck_s.Netns.Commands.{
  get_iface, stale_interfaces, set_up, ipv6_off, routing, forwarding, nat_rule, add_nat, dns,
  and_then, create_commands, destroy_more, destroy_commands,
}

-- `_create_one`: whether it returns.
unfoldable pub create_one : Outside → ℕ → Host × NetNsPool → Host × NetNsPool × Bool
create_one out idx (h, pool) =
    let (h', ok) = create_commands out pool idx h in
    let (h'', tracked) = track_ns_created out h' in
    if ok then (h'', record pool { names = pool.names ++ idx ∷ [] }, tracked) else (h', pool, false)

-- `_destroy_one`: the count goes down however the part before ends.
unfoldable pub destroy_one : Outside → NetNsPool → Bool → ℕ → Host → Host × Option Bool
destroy_one out pool track_lifecycle idx h =
    let (h', deleted) = destroy_commands out pool idx h in
    let (h'', ok) = track_ns_destroyed out h' in
    if track_lifecycle then (h'', if ok then deleted else none) else (h', deleted)

unfoldable pub is_named : ℕ → List ℕ → Bool
is_named idx [] = false
is_named idx (n ∷ rest) = eqb n idx || is_named idx rest

-- The loop of `create_all`: from `i` on, `n` more; with the indices that were begun.
unfoldable pub create_from :
    Outside → ℕ → ℕ → List ℕ → Host × NetNsPool → (Host × NetNsPool) × List ℕ × Bool
create_from out i zero begun s = (s, begun, true)
create_from out i (suc n) begun s =
    let (h, pool, ok) = create_one out i s in
    let more = create_from out (suc i) n (begun ++ i ∷ []) (h, pool) in
    if ok then more else ((h, pool), begun ++ i ∷ [], false)

-- What `create_all` undoes: an error of one removal is swallowed.
unfoldable pub roll_back : Outside → NetNsPool → List ℕ → Host → Host
roll_back out pool [] h = h
roll_back out pool (idx ∷ rest) h =
    roll_back out pool rest (destroy_one out pool (is_named idx pool.names) idx h).0

-- `create_all`: whether it returns.
unfoldable pub create_all : Outside → Host × NetNsPool → Host × NetNsPool × Bool
create_all out (h, pool) =
    let ((h', p), begun, ok) = create_from out 0 pool.size [] (h, pool) in
    if pool.created
    then (h, pool, true)
    else if ok
    then (h', record p { created = true }, true)
    else (roll_back out p begun h', record p { names = [] }, false)

-- The loop of `destroy_all`, and how many are gone.
unfoldable pub destroy_each : Outside → NetNsPool → List ℕ → Host → Host × ℕ
destroy_each out pool [] h = (h, 0)
destroy_each out pool (idx ∷ rest) h =
    let (h', deleted) = destroy_one out pool true idx h in
    let (last, more) = destroy_each out pool rest h' in
    (last, elim deleted [ none ↦ more | some gone ↦ if gone then suc more else more ])

-- `destroy_all`, and how many namespaces may remain.
unfoldable pub destroy_all : Outside → Host × NetNsPool → Host × NetNsPool × ℕ
destroy_all out (h, pool) =
    let (h', destroyed) = destroy_each out pool pool.names h in
    if not pool.created && eqb (length pool.names) 0
    then (h, pool, 0)
    else (h', record pool { created = false; names = [] }, length pool.names - destroyed)

-- `put` into `asyncio.Queue(self.size)`, which has no bound at size 0: `none` where it waits.
unfoldable pub put : ℕ → NetNsPool → Option NetNsPool
put idx pool =
    if not (eqb pool.size 0) && leb pool.size (length pool.queue)
    then none
    else some (record pool { queue = pool.queue ++ idx ∷ [] })

unfoldable pub put_all : List ℕ → NetNsPool → Option NetNsPool
put_all [] pool = some pool
put_all (idx ∷ rest) pool = elim (put idx pool) [ none ↦ none | some p ↦ put_all rest p ]

-- `seed`: `none` where it waits.
unfoldable pub seed : NetNsPool → Option NetNsPool
seed pool = put_all pool.names pool

unfoldable pub drain : NetNsPool → NetNsPool
drain pool = record pool { queue = [] }

-- `acquire`: `none` where it waits.
unfoldable pub acquire : NetNsPool → Option (ℕ × NetNsPool)
acquire pool = elim pool.queue [ [] ↦ none | idx ∷ rest ↦ some (idx, record pool { queue = rest }) ]

-- How the two calls of a cleanup end: whether `pkill_nfqws2_in_ns` and `LuaBridge.teardown` return.
pub record Cleaning : Type 0 where
  pub kills : ℕ → Bool
  pub tears_down : ℕ → Bool

-- `_cleanup_ns`: whether it returns.
unfoldable pub cleanup_ns : Cleaning → ℕ → Bool
cleanup_ns cleaning idx = if cleaning.kills idx then cleaning.tears_down idx else false

-- `release`: what its cleanup raises goes on after the `finally`. `none` where the put waits; with the
-- pool, whether it returns.
unfoldable pub release : Cleaning → ℕ → NetNsPool → Option (NetNsPool × Bool)
release cleaning idx pool =
    let returned = cleanup_ns cleaning idx in
    elim (put idx pool) [ none ↦ none | some p ↦ some (p, returned) ]

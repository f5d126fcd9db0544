-- ===== src/Netns/Lifecycle.antt =====
-- `create_all` and `destroy_all` of src/blockchecks/service/netns_pool.py, whatever fails on the way.
use blockcheck_s.Prelude.{
  ℕ, ◌+◌, ◌-◌, ◌≤◌, Bool, true, false, ◌&&◌, not, List, [], ◌∷◌, eqb, ◌≡◌, refl, ◌∙◌, ap, arith,
  if_split,
}
use blockcheck_s.Prelude.Lists.{length}
use blockcheck_s.Netns.Shared.{Outside, Host, NetNsPool}
use blockcheck_s.Netns.{destroy_one, create_from, create_all, destroy_each, destroy_all}
use blockcheck_s.Netns.Forward.{IsIdle}
use blockcheck_s.Netns.Rollback.{destroy_one-tracked, from, length-from, create_from-Made}

-- The count is that of the pool and of the others, nothing is to be restored without a namespace, and a
-- pool that was not created has no names.
pub record IsSound (others : ℕ) (h : Host) (pool : NetNsPool) : Type 0 where
  pub counted : h.active ≡ others + length pool.names
  pub idle : IsIdle h
  pub empty : pool.created ≡ false → pool.names ≡ []

-- What `create_all` promises of a pool that was not created.
abbrev pub IsCreation : ℕ → NetNsPool → Host × NetNsPool × Bool → Type 0
IsCreation others pool x =
    let (h, p, ok) = x in
    IsSound others h p
    × (p.created ≡ ok)
    × (ok ≡ true → p.names ≡ from 0 pool.size)
    × (ok ≡ false → (p.names ≡ []) × (h.active ≡ others))

-- Whatever command fails: if `create_all` returns, the pool is created and has a name for each index
-- below its size; if it raises, the pool is as if it had not been tried, and its namespaces are no
-- longer counted, also that whose count was what failed.
pub create_all-IsCreation :
    (out : Outside) (others : ℕ) (h : Host) (pool : NetNsPool)
    → IsSound others h pool
    → pool.created ≡ false
    → IsCreation others pool (create_all out (h, pool))
unfolding create_all
create_all-IsCreation out others h pool sound not_yet =
    let none_named = sound.empty not_yet in
    let ((h', p), begun, ok) = create_from out 0 pool.size [] (h, pool) in
    let (same, good, bad) =
      create_from-Made out others 0 pool.size [] h pool refl none_named
        (sound.counted ∙ ap (λ xs. others + length xs) none_named) sound.idle in
    let P = IsCreation others pool in
    if_split P pool.created _ _ (λ c. absurd (cc (c, not_yet)))
      (λ c.
        if_split P ok _ _
          (λ t.
            let (names, active, idle) = good t in
            let range : p.names ≡ from 0 pool.size = names ∙ ap (from 0) (omega arith) in
            (
              record {
                counted = omega (arith, active, ap length range, length-from 0 pool.size);
                idle = idle;
                empty = λ z. absurd (cc z);
              },
              refl,
              λ z. range,
              λ z. absurd (cc z),
            ))
          (λ f.
            let (active, idle) = bad f in
            (
              record { counted = omega (arith, active); idle = idle; empty = λ z. refl },
              same ∙ not_yet,
              λ z. absurd (cc z),
              λ z. (refl, active),
            )))

destroy_each-active :
    (out : Outside) (pool : NetNsPool) (xs : List ℕ) (h : Host)
    → IsIdle h
    → ((destroy_each out pool xs h).0.active ≡ h.active - length xs)
      × IsIdle (destroy_each out pool xs h).0
      × ((destroy_each out pool xs h).1 ≤ length xs)
unfolding destroy_each
destroy_each-active out pool [] h i = (omega arith, i, omega arith)
destroy_each-active out pool (idx ∷ rest) h i =
    let (d, i') = destroy_one-tracked out pool idx h in
    let (d', i'', l) = destroy_each-active out pool rest (destroy_one out pool true idx h).0 i' in
    (omega (arith, d, d'), i'', ground (arith, l))

-- What `destroy_all` promises.
abbrev pub IsRemoval : ℕ → NetNsPool → Host × NetNsPool × ℕ → Type 0
IsRemoval others pool x =
    let (h, p, leftovers) = x in
    IsSound others h p
    × (p.names ≡ [])
    × (p.created ≡ false)
    × (h.active ≡ others)
    × (leftovers ≤ length pool.names)

-- Whatever command fails, after `destroy_all` the pool has no name and its namespaces are no longer
-- counted; so if there are no others, there is no value of `ip_forward` left to restore.
pub destroy_all-IsRemoval :
    (out : Outside) (others : ℕ) (h : Host) (pool : NetNsPool)
    → IsSound others h pool
    → IsRemoval others pool (destroy_all out (h, pool))
unfolding destroy_all
destroy_all-IsRemoval out others h pool sound =
    let (active, idle, most) = destroy_each-active out pool pool.names h sound.idle in
    let P = IsRemoval others pool in
    if_split P (not pool.created && eqb (length pool.names) 0) _ _
      (λ e.
        let not_yet : pool.created ≡ false = ground (arith, e) in
        let empty = sound.empty not_yet in
        (
          sound,
          empty,
          not_yet,
          sound.counted ∙ ap (λ xs. others + length xs) empty ∙ omega arith,
          omega arith,
        ))
      (λ e. (
        record { counted = omega (arith, active, sound.counted); idle = idle; empty = λ z. refl },
        refl,
        refl,
        omega (arith, active, sound.counted),
        omega arith,
      ))

-- ===== src/Netns/Rollback.antt =====
-- The loop of `create_all` of src/blockchecks/service/netns_pool.py and its rollback.
use blockcheck_s.Prelude.{
  ℕ, zero, suc, ◌+◌, ◌-◌, ◌<◌, ◌≤◌, Bool, true, false, List, [], ◌∷◌, ◌++◌, eqb, if◌then◌else◌, ◌≡◌,
  refl, sym, ◌∙◌, ap, arith, if_both, if_split, Bool-cases, ◌⊎◌, inl, inr,
}
use mathlib.Core.Path.{subst}
use blockcheck_s.Prelude.Lists.{length}
use blockcheck_s.Netns.Shared.{Outside, Host, NetNsPool, track_ns_created}
use blockcheck_s.Netns.Commands.{create_commands, destroy_commands}
use blockcheck_s.Netns.{create_one, destroy_one, is_named, create_from, roll_back}
use blockcheck_s.Netns.Forward.{
  Same, IsIdle, create_commands-Same, destroy_commands-Same, track_ns_created_lem,
  track_ns_destroyed_lem,
}

-- The removal of a namespace that is counted, and of one that is not, whether or not it raises.
pub destroy_one-tracked :
    (out : Outside) (pool : NetNsPool) (idx : ℕ) (h : Host)
    → ((destroy_one out pool true idx h).0.active ≡ h.active - 1)
      × IsIdle (destroy_one out pool true idx h).0
unfolding destroy_one
destroy_one-tracked out pool idx h =
    let s = destroy_commands-Same out pool idx h in
    let (d, i) = track_ns_destroyed_lem out (destroy_commands out pool idx h).0 in
    (d ∙ ap (λ n. n - 1) s.active, i)

destroy_one-untracked :
    (out : Outside) (pool : NetNsPool) (idx : ℕ) (h : Host)
    → Same h (destroy_one out pool false idx h).0
unfolding destroy_one
destroy_one-untracked out pool idx h = destroy_commands-Same out pool idx h

-- How many of the indices the pool has named.
abbrev named_in : NetNsPool → List ℕ → ℕ
named_in pool [] = 0
named_in pool (idx ∷ rest) =
    if is_named idx pool.names then suc (named_in pool rest) else named_in pool rest

roll_back_lem :
    (out : Outside) (pool : NetNsPool) (begun : List ℕ) (h : Host)
    → IsIdle h
    → ((roll_back out pool begun h).active ≡ h.active - named_in pool begun)
      × IsIdle (roll_back out pool begun h)
unfolding roll_back
roll_back_lem out pool [] h i = (omega arith, i)
roll_back_lem out pool (idx ∷ rest) h i =
    let next : Bool → Host = λ b. (destroy_one out pool b idx h).0 in
    let named = is_named idx pool.names in
    let (a, i') : ((next named).active ≡ h.active - (if named then 1 else 0))
        × IsIdle (next named) =
      elim (Bool-cases named) [
        | inl tracked ↦
            subst (λ b. ((next b).active ≡ h.active - (if b then 1 else 0)) × IsIdle (next b))
              (sym tracked) (destroy_one-tracked out pool idx h)
        | inr untracked ↦
            subst (λ b. ((next b).active ≡ h.active - (if b then 1 else 0)) × IsIdle (next b))
              (sym untracked)
              (let s = destroy_one-untracked out pool idx h in
                (omega (arith, s.active), λ z. s.restore ∙ i (sym s.active ∙ z)))
      ] in
    let (a', i'') = roll_back_lem out pool rest (next named) i' in (ground (arith, a, a'), i'')

-- `i`, `i + 1` and so on, `n` of them.
abbrev pub from : ℕ → ℕ → List ℕ
from i zero = []
from i (suc n) = i ∷ from (suc i) n

pub length-from : (i n : ℕ) → length (from i n) ≡ n
length-from i zero = refl
length-from i (suc n) = omega (arith, length-from (suc i) n)

from-snoc : (i n : ℕ) → from i n ++ (i + n) ∷ [] ≡ from i (suc n)
from-snoc i zero = ap (λ k. k ∷ []) (omega arith)
from-snoc i (suc n) =
    ap (λ xs. i ∷ xs) (ap (λ k. from (suc i) n ++ k ∷ []) (omega arith) ∙ from-snoc (suc i) n)

is_named-from : (i n k : ℕ) → is_named k (from i n) ≡ true → k < i + n
unfolding is_named
is_named-from i zero k e = absurd (cc e)
is_named-from i (suc n) k e = ground (arith, e, is_named-from (suc i) n k)

is_named-in : (i n k : ℕ) → i ≤ k → k < i + n → is_named k (from i n) ≡ true
unfolding is_named
is_named-in i zero k l m = absurd (omega (arith, l, m))
is_named-in i (suc n) k l m = elim (Bool-cases (eqb i k)) [
  | inl here ↦ ground (arith, here)
  | inr there ↦
      let rest = is_named-in (suc i) n k (ground (arith, l, there)) (omega (arith, m)) in
      ground (arith, there, rest)
]

-- All of the first `m` are named, and the next one is not.
named_in_all :
    (pool : NetNsPool) (m i n : ℕ)
    → pool.names ≡ from 0 m
    → i + n ≤ m
    → named_in pool (from i n) ≡ n
named_in_all pool m i zero e l = refl
named_in_all pool m i (suc n) e l =
    let named : is_named i pool.names ≡ true =
      subst (λ xs. is_named i xs ≡ true) (sym e)
        (is_named-in 0 m i (omega arith) (omega (arith, l))) in
    ground (arith, named, named_in_all pool m (suc i) n e (omega (arith, l)))

named_in-snoc :
    (pool : NetNsPool) (xs : List ℕ) (idx : ℕ)
    → is_named idx pool.names ≡ false
    → named_in pool (xs ++ idx ∷ []) ≡ named_in pool xs
named_in-snoc pool [] idx e = ground (arith, e)
named_in-snoc pool (x ∷ xs) idx e = ground (arith, named_in-snoc pool xs idx e)

-- How `_create_one` ends: with one more name and one more counted; or it raises before there is a name,
-- and nothing is counted; or it raises where the first namespace of all is to be counted.
create_one_lem :
    (out : Outside) (idx : ℕ) (h : Host) (pool : NetNsPool)
    → let (h', p, ok) = create_one out idx (h, pool) in
      (p.created ≡ pool.created)
      × (ok ≡ true → (p.names ≡ pool.names ++ idx ∷ []) × (h'.active ≡ suc h.active))
      × (ok ≡ false
          → ((p.names ≡ pool.names) × Same h h')
            ⊎ ((p.names ≡ pool.names ++ idx ∷ []) × (h.active ≡ 0) × (h'.active ≡ 0)))
unfolding create_one
create_one_lem out idx h pool =
    let (h', ok) = create_commands out pool idx h in
    let s = create_commands-Same out pool idx h in
    let (good, bad) = track_ns_created_lem out h' in
    let (h'', tracked) = track_ns_created out h' in
    let P : Host × NetNsPool × Bool → Type 0 = λ x.
      (x.1.created ≡ pool.created)
      × (x.2 ≡ true → (x.1.names ≡ pool.names ++ idx ∷ []) × (x.0.active ≡ suc h.active))
      × (x.2 ≡ false
          → ((x.1.names ≡ pool.names) × Same h x.0)
            ⊎ ((x.1.names ≡ pool.names ++ idx ∷ []) × (h.active ≡ 0) × (x.0.active ≡ 0))) in
    if_both P ok (h'', record pool { names = pool.names ++ idx ∷ [] }, tracked) (h', pool, false)
      (
        refl,
        λ t. (refl, good t ∙ ap suc s.active),
        λ f. inr (refl, sym s.active ∙ (bad f).0, (bad f).1),
      )
      (refl, λ t. absurd (cc t), λ f. inl (refl, s))

-- What the loop of `create_all` leaves, and its rollback.
abbrev pub Made : Outside → ℕ → ℕ → Bool → (Host × NetNsPool) × List ℕ × Bool → Type 0
Made out others m created x =
    let ((h, p), begun, ok) = x in
    (p.created ≡ created)
    × (ok ≡ true → (p.names ≡ from 0 m) × (h.active ≡ others + m) × IsIdle h)
    × (ok ≡ false → ((roll_back out p begun h).active ≡ others) × IsIdle (roll_back out p begun h))

-- The rollback where the last index has no name, and where it is the first of all and has one.
roll_back-early :
    (out : Outside) (others i : ℕ) (h : Host) (pool : NetNsPool) (begun : List ℕ)
    → begun ≡ from 0 i
    → pool.names ≡ from 0 i
    → h.active ≡ others + i
    → IsIdle h
    → ((roll_back out pool (begun ++ i ∷ []) h).active ≡ others)
      × IsIdle (roll_back out pool (begun ++ i ∷ []) h)
roll_back-early out others i h pool begun b e a idle =
    let (d, left) = roll_back_lem out pool (begun ++ i ∷ []) h idle in
    let unnamed : is_named i pool.names ≡ false =
      subst (λ xs. is_named i xs ≡ false) (sym e) (ground (arith, is_named-from 0 i i)) in
    let count : named_in pool (begun ++ i ∷ []) ≡ i =
      named_in-snoc pool begun i unnamed
      ∙ ap (named_in pool) b
      ∙ named_in_all pool i 0 i e (omega arith) in
    (omega (arith, d, count, a), left)

roll_back-late :
    (out : Outside) (others i : ℕ) (h : Host) (pool : NetNsPool) (begun : List ℕ)
    → begun ≡ from 0 i
    → pool.names ≡ from 0 i ++ i ∷ []
    → others + i ≡ 0
    → h.active ≡ 0
    → ((roll_back out pool (begun ++ i ∷ []) h).active ≡ others)
      × IsIdle (roll_back out pool (begun ++ i ∷ []) h)
unfolding roll_back is_named
roll_back-late out others (suc i) h pool begun b e z a = absurd (omega (arith, z))
roll_back-late out others zero h pool begun b e z a =
    let (d, left) = destroy_one-tracked out pool 0 h in
    let named : is_named 0 pool.names ≡ true = ap (is_named 0) e in
    let P : List ℕ → Type 0 = λ xs.
      ((roll_back out pool (xs ++ 0 ∷ []) h).active ≡ others)
      × IsIdle (roll_back out pool (xs ++ 0 ∷ []) h) in
    subst P (sym b) (
      subst
        (λ t.
          ((destroy_one out pool t 0 h).0.active ≡ others) × IsIdle (destroy_one out pool t 0 h).0)
        (sym named) (omega (arith, d, a, z), left))

pub create_from-Made :
    (out : Outside) (others i n : ℕ) (begun : List ℕ) (h : Host) (pool : NetNsPool)
    → begun ≡ from 0 i
    → pool.names ≡ from 0 i
    → h.active ≡ others + i
    → IsIdle h
    → Made out others (i + n) pool.created (create_from out i n begun (h, pool))
unfolding create_from is_named
create_from-Made out others i zero begun h pool b e a idle =
    (refl, λ t. (e ∙ ap (from 0) (omega arith), omega (arith, a), idle), λ f. absurd (cc f))
create_from-Made out others i (suc n) begun h pool b e a idle =
    let (h', p, ok) = create_one out i (h, pool) in
    let (c, good, bad) = create_one_lem out i h pool in
    let next : from 0 i ++ i ∷ [] ≡ from 0 (suc i) =
      ap (λ k. from 0 i ++ k ∷ []) (omega arith) ∙ from-snoc 0 i in
    if_split {A = (Host × NetNsPool) × List ℕ × Bool} (Made out others (i + suc n) pool.created) ok
      _ _
      (λ t.
        let (names, active) = good t in
        let more =
          create_from-Made out others (suc i) n (begun ++ i ∷ []) h' p
            (ap (λ xs. xs ++ i ∷ []) b ∙ next) (names ∙ ap (λ xs. xs ++ i ∷ []) e ∙ next)
            (omega (arith, active, a)) (λ z. absurd (omega (arith, z, active))) in
        subst
          (λ k.
            Made out others k pool.created (create_from out (suc i) n (begun ++ i ∷ []) (h', p)))
          (omega arith) (more.0 ∙ c, more.1, more.2))
      (λ f. (
        c,
        λ t. absurd (cc t),
        λ z. elim (bad f) [
          | inl (names, s) ↦
              roll_back-early out others i h' p begun b (names ∙ e) (s.active ∙ a)
                (λ z. s.restore ∙ idle (sym s.active ∙ z))
          | inr (names, none_before, none_after) ↦
              roll_back-late out others i h' p begun b (names ∙ ap (λ xs. xs ++ i ∷ []) e)
                (sym a ∙ none_before) none_after
        ],
      ))

-- ===== src/Quarantine/Seeding.antt =====
-- The thresholds, and the rows of earlier sessions, of src/blockchecks/engine/domain_quarantine.py.
use mathlib.Core.List.{Memᴰ}
use mathlib.Core.Path.{subst}
use blockcheck_s.Prelude.{
  if_both, Bool-cases, inl, inr, not, ℕ, ◌≤◌, true, false, ◌||◌, String, Option, some, List, [],
  ◌∷◌, string_eq, ==_iff, ◌≡◌, arith,
}
use blockcheck_s.Prelude.Int.{ℤ, pos}
use blockcheck_s.Prelude.Lists.{All}
use blockcheck_s.Prelude.Dict.{has_key, lookup-insert, contains, Distinct}
use blockcheck_s.Quarantine.{
  DomainQuarantine, Row, clamp_quarantine_min, stats_of, seed_row, seed_loop, seed_from_rows,
}

-- In 1 .. 10000, and the setting itself where that is in the range.
abbrev pub IsClamped : {V : Type 0} → (V → Option ℤ) → Option V → ℕ → Type 0
IsClamped {V} to_int setting default =
    (1 ≤ clamp_quarantine_min to_int setting default)
    × (clamp_quarantine_min to_int setting default ≤ 10000)
    × ((v : V) (n : ℕ)
        → setting ≡ some v
        → to_int v ≡ some (pos n)
        → 1 ≤ n
        → n ≤ 10000
        → clamp_quarantine_min to_int setting default ≡ n)

-- A threshold lies in 1 .. 10000 whatever the setting says, if the default does; and a setting in
-- that range is taken as it is.
pub clamp_quarantine_min-IsClamped :
    {V : Type 0} (to_int : V → Option ℤ) (setting : Option V) (default : ℕ)
    → 1 ≤ default
    → default ≤ 10000
    → IsClamped to_int setting default
unfolding clamp_quarantine_min
clamp_quarantine_min-IsClamped to_int setting default a b =
    (ground arith, ground arith, λ v n e f l u. ground arith)

-- `newly` names the domains that a call adds to the quarantine, each of them once.
abbrev pub Adds : DomainQuarantine → DomainQuarantine → List String → Type 0
Adds q q' newly =
    (k : String) → has_key k q'.quarantined ≡ (has_key k q.quarantined || contains newly k)

seed_loop-Adds :
    (q : DomainQuarantine) (now : String) (rows : List Row)
    → Adds q (seed_loop seed_row q now rows).0 (seed_loop seed_row q now rows).1
unfolding seed_loop seed_row contains
seed_loop-Adds q now [] k = ground arith
seed_loop-Adds q now ((d, t, s) ∷ rows) k =
    grind (arith, lookup-insert, ==_iff d k, seed_loop-Adds (seed_row q now d t s).0 now rows k)

-- A row with enough failures and no success puts its domain in the quarantine, unless the tracker
-- has seen the domain pass.
seed_row_marks :
    (q : DomainQuarantine) (now d : String) (total : ℕ)
    → q.config.min_attempts ≤ total
    → (stats_of q d).passed ≡ 0
    → has_key d (seed_row q now d total 0).0.quarantined ≡ true
unfolding seed_row
seed_row_marks q now d total h p = grind (arith, lookup-insert, ==_iff d d)

seed_loop_new :
    (q : DomainQuarantine) (now : String) (rows : List Row) (k : String)
    → contains (seed_loop seed_row q now rows).1 k ≡ true
    → has_key k q.quarantined ≡ false
unfolding seed_loop seed_row contains
seed_loop_new q now [] k h = cc
seed_loop_new q now ((d, t, s) ∷ rows) k h =
    grind (arith, lookup-insert, ==_iff d k, seed_loop_new (seed_row q now d t s).0 now rows k)

seed_row_marked :
    (q : DomainQuarantine) (now d : String) (t s : ℕ)
    → (seed_row q now d t s).1 ≡ true
    → has_key d (seed_row q now d t s).0.quarantined ≡ true
unfolding seed_row
seed_row_marked q now d t s h = grind (arith, lookup-insert, ==_iff d d)

fresh_name :
    (q : DomainQuarantine) (now d : String) (rows : List Row)
    → has_key d q.quarantined ≡ true
    → contains (seed_loop seed_row q now rows).1 d ≡ false
fresh_name q now d rows h = elim (Bool-cases (contains (seed_loop seed_row q now rows).1 d)) [
  | inl old ↦ cc (seed_loop_new q now rows d old)
  | inr new ↦ new
]

seed_loop-Distinct :
    (q : DomainQuarantine) (now : String) (rows : List Row)
    → Distinct (seed_loop seed_row q now rows).1
unfolding seed_loop
seed_loop-Distinct q now [] = tt
seed_loop-Distinct q now ((d, t, s) ∷ rows) =
    let q' = (seed_row q now d t s).0 in
    elim (Bool-cases (seed_row q now d t s).1) [
      | inl e ↦
          rw e (
            fresh_name q' now d rows (seed_row_marked q now d t s e),
            seed_loop-Distinct q' now rows,
          )
      | inr e ↦ rw e (seed_loop-Distinct q' now rows)
    ]

-- `newly` names each domain that enters the quarantine, once, and no other.
abbrev pub IsReport : DomainQuarantine → String → List Row → Type 0
IsReport q now rows =
    Adds q (seed_from_rows q now rows).0 (seed_from_rows q now rows).1
    × Distinct (seed_from_rows q now rows).1
    × ((k : String)
        → contains (seed_from_rows q now rows).1 k ≡ true
        → has_key k q.quarantined ≡ false)

-- The names that `seed_from_rows` returns are those that enter the quarantine, each of them once:
-- afterwards a domain is quarantined if it was or if it is named, and no named domain was before.
pub seed_from_rows-IsReport :
    (q : DomainQuarantine) (now : String) (rows : List Row) → IsReport q now rows
unfolding seed_from_rows contains
seed_from_rows-IsReport q now rows = (
  λ k. ground (arith, seed_loop-Adds q now rows k),
  if_both {A = DomainQuarantine × List String} (λ r. Distinct r.1) (not q.config.enabled) (q, []) _
      tt (seed_loop-Distinct q now rows),
  λ k h. ground (arith, seed_loop_new q now rows k),
)

-- The row's domain has no success so far, neither in the tracker nor in the rows.
abbrev pub NeverPassed : String → List Row → Type 0
NeverPassed d rows = All (λ r. r.0 ≡ d → r.2 ≡ 0) rows

seed_row_never :
    (q : DomainQuarantine) (now d k : String) (t s : ℕ)
    → (stats_of q k).passed ≡ 0
    → (d ≡ k → s ≡ 0)
    → ((stats_of (seed_row q now d t s).0 k).passed ≡ 0)
      × ((seed_row q now d t s).0.config ≡ q.config)
unfolding seed_row
seed_row_never q now d k t s h z = grind (arith, lookup-insert, ==_iff d k)

seed_loop_keeps :
    (q : DomainQuarantine) (now k : String) (rows : List Row)
    → has_key k q.quarantined ≡ true
    → has_key k (seed_loop seed_row q now rows).0.quarantined ≡ true
seed_loop_keeps q now k rows h = ground (arith, seed_loop-Adds q now rows k)

-- On a resumed run, a domain for which some row has enough failures is quarantined, if neither the
-- tracker nor any row knows a success of it.
pub seed_loop_marks :
    (q : DomainQuarantine) (now k : String) (total : ℕ) (rows : List Row)
    → q.config.min_attempts ≤ total
    → (stats_of q k).passed ≡ 0
    → NeverPassed k rows
    → Memᴰ (k, total, 0) rows
    → has_key k (seed_loop seed_row q now rows).0.quarantined ≡ true
unfolding seed_loop
seed_loop_marks q now k total [] enough none_yet z m = elim m [ ]
seed_loop_marks q now k total ((d, t, s) ∷ rows) enough none_yet z (Memᴰ.head e) =
    seed_loop_keeps (seed_row q now d t s).0 now k rows (
      subst (λ (r : Row). has_key k (seed_row q now r.0 r.1 r.2).0.quarantined ≡ true) e
        (seed_row_marks q now k total enough none_yet))
seed_loop_marks q now k total ((d, t, s) ∷ rows) enough none_yet z (Memᴰ.tail m) =
    let (h, c) = seed_row_never q now d k t s none_yet z.0 in
    seed_loop_marks (seed_row q now d t s).0 now k total rows (rw c enough) h z.1 m

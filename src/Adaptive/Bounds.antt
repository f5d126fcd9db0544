-- ===== src/Adaptive/Bounds.antt =====
-- The weights at the start of a run of src/blockchecks/engine/adaptive_runner.py lie within the limit.
use blockcheck_s.Prelude.{
  ℕ, ◌≤◌, Bool, false, ◌&&◌, not, String, Option, none, some, List, [], ◌∷◌, string_eq, pair_eq,
  ◌==◌, if◌then◌else◌, arith, if_both, option_split,
}
use blockcheck_s.Prelude.Lists.{is_nil, All}
use blockcheck_s.Prelude.Text.{lower, remove_prefix}
use blockcheck_s.Prelude.Dict.{insert, contains, add, lookup-insert}
use blockcheck_s.Job.{StrategyItem}
use blockcheck_s.Weights.{
  Table, ScanWeights, max_weight, fresh, from_rows, read_rows, read_row, boost_provider_once,
}
use blockcheck_s.Weights.Bounds.{IsBounded, IsCapped, fresh-IsBounded, boost_pass-IsBounded}
use blockcheck_s.Queue.{Genetics}
use blockcheck_s.Triage.{TriageProfile}
use blockcheck_s.Triage.Seeding.{seed_from_triage}
use blockcheck_s.Triage.Idempotent.{seed_from_triage-IsBounded}
use blockcheck_s.Adaptive.Start.{
  PassRow, lowered, boost_row, boost_rows, apply_provider_weights, start_weights,
}

insert-IsCapped :
    (t : Table) (k : String) (v : ℕ) → v ≤ max_weight → IsCapped t → IsCapped (insert k v t)
insert-IsCapped t k v p h = record {
  at = λ j w e. ground (arith, h.at j w, e, p, lookup-insert k j v t);
}

-- A stored weight within the limit.
abbrev pub IsRow : String × ℕ → Type 0
IsRow row = row.1 ≤ max_weight

read_row-IsBounded :
    (w : ScanWeights) (row : String × ℕ) → IsRow row → IsBounded w → IsBounded (read_row w row)
unfolding read_row
read_row-IsBounded w (name, v) p h =
    option_split IsBounded (remove_prefix "family:" name) _ _
      (λ e.
        option_split IsBounded (remove_prefix "blob:" name) _ _
          (λ e.
            option_split IsBounded (remove_prefix "trait:" name) _ _ (λ e. h)
              (λ k e. record {
                family = h.family;
                blob = h.blob;
                trait = insert-IsCapped w.trait k v p h.trait;
              }))
          (λ k e. record {
            family = h.family;
            blob = insert-IsCapped w.blob k v p h.blob;
            trait = h.trait;
          }))
      (λ k e. record {
        family = insert-IsCapped w.family k v p h.family;
        blob = h.blob;
        trait = h.trait;
      })

read_rows-IsBounded :
    (w : ScanWeights) (rows : List (String × ℕ))
    → All IsRow rows
    → IsBounded w
    → IsBounded (read_rows w rows)
unfolding read_rows
read_rows-IsBounded w [] p h = h
read_rows-IsBounded w (row ∷ rows) p h =
    read_rows-IsBounded (read_row w row) rows p.1 (read_row-IsBounded w row p.0 h)

boost_row-IsBounded :
    (g : Genetics) (ds : List String) (w : ScanWeights) (row : PassRow)
    → IsBounded w
    → IsBounded (boost_row g ds w row)
unfolding boost_row boost_provider_once
boost_row-IsBounded g ds w row h =
    let item : StrategyItem = record {
      label = row.strategy;
      strategy = row.strategy;
      is_config = false;
      protocol = "tls12";
    } in
    let added : ScanWeights = record w { provider_boosted = add row.strategy w.provider_boosted } in
    let k =
      boost_pass-IsBounded added (g.family item) (g.blobs row.strategy) (g.traits row.strategy)
        (record { family = h.family; blob = h.blob; trait = h.trait }) in
    if_both IsBounded (not (lower row.domain == "") && not (contains ds (lower row.domain))) w _ h (
      if_both IsBounded (row.strategy == "") w _ h (
        if_both {A = ScanWeights × Bool} (λ x. IsBounded x.0)
          (contains w.provider_boosted row.strategy) (w, false) _ h k))

boost_rows-IsBounded :
    (g : Genetics) (ds : List String) (w : ScanWeights) (rows : List PassRow)
    → IsBounded w
    → IsBounded (boost_rows g ds w rows)
unfolding boost_rows
boost_rows-IsBounded g ds w [] h = h
boost_rows-IsBounded g ds w (row ∷ rows) h =
    boost_rows-IsBounded g ds (boost_row g ds w row) rows (boost_row-IsBounded g ds w row h)

-- If the stored weights lie within the limit, so do the weights at the start, whatever the provider and the
-- triage say.
pub start_weights-IsBounded :
    {Other : Type 0} (g : Genetics) (rows : List (String × ℕ)) (passes : List PassRow)
    (triage : Option (TriageProfile Other)) (domains : List String)
    → All IsRow rows
    → IsBounded (start_weights g rows passes triage domains)
unfolding start_weights apply_provider_weights from_rows seed_from_triage
start_weights-IsBounded g rows passes triage domains p =
    let first =
      if_both IsBounded (is_nil rows) fresh (from_rows rows) fresh-IsBounded
        (read_rows-IsBounded fresh rows p fresh-IsBounded) in
    let boosted = boost_rows-IsBounded g (lowered domains) _ passes first in
    elim triage
      as (λ t. IsBounded (
        seed_from_triage
          (boost_rows g (lowered domains) (if is_nil rows then fresh else from_rows rows) passes)
          t)) [ none ↦ boosted | some profile ↦ seed_from_triage-IsBounded _ profile boosted ]

-- ===== src/Weights.antt =====
-- `ScanWeights` of src/blockchecks/engine/adaptive_queue.py: weights of families, blobs and traits.
-- A weight is a number of tenths, since every constant of the source is one: 64.0 is 640, and the
-- sums are those of exact arithmetic, not of floats. `seed_from_triage` stands in Triage/Seeding.
pub mod Bounds
pub mod Rows
mod Tests
use blockcheck_s.Prelude.{
  ℕ, ◌+◌, min, Bool, true, false, String, Option, none, some, List, [], ◌∷◌, ◌++◌, map, string_eq,
  ◌==◌, if◌then◌else◌,
}
use blockcheck_s.Prelude.Dict.{lookup, insert, contains, add}
use blockcheck_s.Prelude.Text.{append, remove_prefix}

abbrev pub Table : Type 0
Table = List (String × ℕ)

-- `_MAX_WEIGHT`
abbrev pub max_weight : ℕ
max_weight = 640

pub record ScanWeights : Type 0 where
  pub family : Table
  pub blob : Table
  pub trait : Table
  pub family_boost : ℕ
  pub blob_boost : ℕ
  pub trait_boost : ℕ
  pub provider_boosted : List String

abbrev pub fresh : ScanWeights
fresh = record {
  family = [];
  blob = [];
  trait = [];
  family_boost = 10;
  blob_boost = 5;
  trait_boost = 4;
  provider_boosted = [];
}

-- `table.get(k, d)`
unfoldable pub get_or : Table → String → ℕ → ℕ
get_or t k d = elim (lookup k t) [ none ↦ d | some v ↦ v ]

-- `for k in ks: score += table.get(k, 0.0)`
unfoldable pub total : Table → List String → ℕ → ℕ
total t [] score = score
total t (k ∷ ks) score = total t ks (score + get_or t k 0)

-- `ScanWeights.get`
unfoldable pub get : ScanWeights → String → List String → List String → ℕ
get w family blobs traits = total w.trait traits (total w.blob blobs (get_or w.family family 10))

-- `table[k] = min(table.get(k, d) + boost, _MAX_WEIGHT)`
unfoldable pub raise : Table → String → ℕ → ℕ → Table
raise t k d boost = insert k (min (get_or t k d + boost) max_weight) t

unfoldable pub raise_all : Table → List String → ℕ → Table
raise_all t [] boost = t
raise_all t (k ∷ ks) boost = raise_all (raise t k 0 boost) ks boost

unfoldable pub boost_pass : ScanWeights → String → List String → List String → ScanWeights
boost_pass w family blobs traits = record w {
  family = raise w.family family 10 w.family_boost;
  blob = raise_all w.blob blobs w.blob_boost;
  trait = raise_all w.trait traits w.trait_boost;
}

unfoldable pub boost_provider_once :
    ScanWeights → String → String → List String → List String → ScanWeights × Bool
boost_provider_once w strategy_key family blobs traits =
    if contains w.provider_boosted strategy_key then (w, false) else (
      boost_pass (record w { provider_boosted = add strategy_key w.provider_boosted }) family blobs
          traits,
      true,
    )

-- The rows of one table under its prefix.
unfoldable pub rows_of : String → Table → List (String × ℕ)
rows_of prefix [] = []
rows_of prefix ((k, v) ∷ t) = (append prefix k, v) ∷ rows_of prefix t

unfoldable pub to_rows : ScanWeights → List (String × ℕ)
to_rows w = rows_of "family:" w.family ++ (rows_of "blob:" w.blob ++ rows_of "trait:" w.trait)

-- The body of the loop of `from_rows`: `remove_prefix p key` is what follows `p`, if `key` starts
-- with it.
unfoldable pub read_row : ScanWeights → String × ℕ → ScanWeights
read_row w (key, val) = elim (remove_prefix "family:" key) [
  | some k ↦ record w { family = insert k val w.family }
  | none ↦ elim (remove_prefix "blob:" key) [
    | some k ↦ record w { blob = insert k val w.blob }
    | none ↦ elim (remove_prefix "trait:" key) [
      | some k ↦ record w { trait = insert k val w.trait }
      | none ↦ w
    ]
  ]
]

unfoldable pub read_rows : ScanWeights → List (String × ℕ) → ScanWeights
read_rows w [] = w
read_rows w (row ∷ rows) = read_rows (read_row w row) rows

unfoldable pub from_rows : List (String × ℕ) → ScanWeights
from_rows rows = read_rows fresh rows

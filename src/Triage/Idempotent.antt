-- ===== src/Triage/Idempotent.antt =====
-- `seed_from_triage` of src/blockchecks/engine/adaptive_queue.py: a second seeding changes nothing.
use blockcheck_s.Prelude.{
  ℕ, ◌≤◌, min, true, false, String, some, List, [], ◌∷◌, string_eq, ◌==◌, ==_iff, if◌then◌else◌,
  ◌≡◌, refl, ◌∙◌, ap, arith,
}
use blockcheck_s.Prelude.Lists.{All, All-map}
use blockcheck_s.Prelude.Dict.{lookup, insert, lookup-insert}
use blockcheck_s.Weights.{Table, ScanWeights, max_weight, get_or}
use blockcheck_s.Weights.Bounds.{IsCapped, IsBounded}
use blockcheck_s.Triage.{TriageProfile}
use blockcheck_s.Triage.Tags.{families_for_profile, dead_fooling_tokens}
use blockcheck_s.Triage.Seeding.{
  seed_key, seed_keys, bury, fool_keys, names_of, blob_keys, split_keys, seed_traits,
  seed_from_triage,
}

insert_same : (k : String) (v : ℕ) (t : Table) → lookup k t ≡ some v → insert k v t ≡ t
unfolding insert lookup
insert_same k v [] e = absurd (cc e)
insert_same k v ((j, w) ∷ t) e = ground (arith, insert_same k v t, ==_iff j k, e)

-- The weight of the key is there and within the limit.
abbrev HasSeed : Table → String → Type 0
HasSeed t k = (v : ℕ) × (lookup k t ≡ some v) × (v ≤ max_weight)

-- The key has the weight of a dead fooling.
abbrev IsBuried : Table → String → Type 0
IsBuried t k = lookup k t ≡ some 1

lookup-seed_key :
    (seed : ℕ) (t : Table) (k j : String)
    → lookup j (seed_key seed t k)
      ≡ (if k == j then some (min (get_or t k seed) max_weight) else lookup j t)
unfolding seed_key
lookup-seed_key seed t k j = lookup-insert k j (min (get_or t k seed) max_weight) t

HasSeed-seed_key :
    (seed : ℕ) (t : Table) (k j : String) → HasSeed t j → HasSeed (seed_key seed t k) j
HasSeed-seed_key seed t k j (v, e, b) =
    elim (k == j) as (λ b. (k == j) ≡ b → HasSeed (seed_key seed t k) j) [
      | true ↦ λ same. (
        min (get_or t k seed) max_weight,
        ground (arith, same, lookup-seed_key seed t k j),
        omega arith,
      )
      | false ↦ λ other. (v, ground (arith, other, e, lookup-seed_key seed t k j), b)
    ]
      refl

HasSeed-seed_keys :
    (seed : ℕ) (ks : List String) (t : Table) (j : String)
    → HasSeed t j
    → HasSeed (seed_keys seed t ks) j
unfolding seed_keys
HasSeed-seed_keys seed [] t j h = h
HasSeed-seed_keys seed (k ∷ ks) t j h =
    HasSeed-seed_keys seed ks (seed_key seed t k) j (HasSeed-seed_key seed t k j h)

All-HasSeed : (seed : ℕ) (ks : List String) (t : Table) → All (HasSeed (seed_keys seed t ks)) ks
unfolding seed_keys
All-HasSeed seed [] t = tt
All-HasSeed seed (k ∷ ks) t = (
  HasSeed-seed_keys seed ks (seed_key seed t k) k (
    min (get_or t k seed) max_weight,
    ground (arith, lookup-seed_key seed t k k, ==_iff k k),
    omega arith,
  ),
  All-HasSeed seed ks (seed_key seed t k),
)

seed_key_same : (seed : ℕ) (t : Table) (k : String) → HasSeed t k → seed_key seed t k ≡ t
unfolding seed_key get_or
seed_key_same seed t k (v, e, b) =
    let same : min (get_or t k seed) max_weight ≡ v = ground (arith, e, b) in
    ap (λ n. insert k n t) same ∙ insert_same k v t e

seed_keys_same :
    (seed : ℕ) (ks : List String) (t : Table) → All (HasSeed t) ks → seed_keys seed t ks ≡ t
unfolding seed_keys
seed_keys_same seed [] t h = refl
seed_keys_same seed (k ∷ ks) t h =
    ap (λ u. seed_keys seed u ks) (seed_key_same seed t k h.0) ∙ seed_keys_same seed ks t h.1

IsBuried-seed_key :
    (seed : ℕ) (t : Table) (k j : String) → IsBuried t j → IsBuried (seed_key seed t k) j
unfolding get_or
IsBuried-seed_key seed t k j h = ground (arith, h, lookup-seed_key seed t k j, ==_iff k j)

IsBuried-seed_keys :
    (seed : ℕ) (ks : List String) (t : Table) (j : String)
    → IsBuried t j
    → IsBuried (seed_keys seed t ks) j
unfolding seed_keys
IsBuried-seed_keys seed [] t j h = h
IsBuried-seed_keys seed (k ∷ ks) t j h =
    IsBuried-seed_keys seed ks (seed_key seed t k) j (IsBuried-seed_key seed t k j h)

IsBuried-bury : (ks : List String) (t : Table) (j : String) → IsBuried t j → IsBuried (bury t ks) j
unfolding bury
IsBuried-bury [] t j h = h
IsBuried-bury (k ∷ ks) t j h =
    IsBuried-bury ks (insert k 1 t) j (ground (arith, h, lookup-insert k j 1 t))

All-IsBuried : (ks : List String) (t : Table) → All (IsBuried (bury t ks)) ks
unfolding bury
All-IsBuried [] t = tt
All-IsBuried (k ∷ ks) t = (
  IsBuried-bury ks (insert k 1 t) k (ground (arith, lookup-insert k k 1 t, ==_iff k k)),
  All-IsBuried ks (insert k 1 t),
)

bury_same : (ks : List String) (t : Table) → All (IsBuried t) ks → bury t ks ≡ t
unfolding bury
bury_same [] t h = refl
bury_same (k ∷ ks) t h = ap (λ u. bury u ks) (insert_same k 1 t h.0) ∙ bury_same ks t h.1

seed_keys-again :
    (seed : ℕ) (ks : List String) (t : Table)
    → seed_keys seed (seed_keys seed t ks) ks ≡ seed_keys seed t ks
seed_keys-again seed ks t = seed_keys_same seed ks (seed_keys seed t ks) (All-HasSeed seed ks t)

module _ (dead viable split : List String) (t : Table) where
  -- The dead foolings stay buried.
  buried : All (IsBuried (seed_traits dead viable split t)) dead
  unfolding seed_traits
  buried =
      All-map (IsBuried (bury t dead)) (IsBuried (seed_traits dead viable split t))
        (λ k h. IsBuried-seed_keys 4 split _ k (IsBuried-seed_keys 8 viable _ k h)) dead
        (All-IsBuried dead t)

  seed_traits-again :
      seed_traits dead viable split (seed_traits dead viable split t)
      ≡ seed_traits dead viable split t
  unfolding seed_traits
  seed_traits-again =
      let one = seed_keys 8 (bury t dead) viable in
      let seeded =
        All-map (HasSeed one) (HasSeed (seed_keys 4 one split))
          (λ k h. HasSeed-seed_keys 4 split one k h) viable (All-HasSeed 8 viable (bury t dead)) in
      ap (λ u. seed_keys 4 (seed_keys 8 u viable) split)
        (bury_same dead (seed_keys 4 one split) buried)
      ∙ ap (λ u. seed_keys 4 u split) (seed_keys_same 8 viable (seed_keys 4 one split) seeded)
      ∙ seed_keys-again 4 split one

IsCapped-seed_keys :
    (seed : ℕ) (ks : List String) (t : Table) → IsCapped t → IsCapped (seed_keys seed t ks)
unfolding seed_keys
IsCapped-seed_keys seed [] t h = h
IsCapped-seed_keys seed (k ∷ ks) t h =
    IsCapped-seed_keys seed ks (seed_key seed t k)
      (record { at = λ j v e. ground (arith, h.at j v, e, lookup-seed_key seed t k j, ==_iff k j) })

IsCapped-bury : (ks : List String) (t : Table) → IsCapped t → IsCapped (bury t ks)
unfolding bury
IsCapped-bury [] t h = h
IsCapped-bury (k ∷ ks) t h =
    IsCapped-bury ks (insert k 1 t)
      (record { at = λ j v e. ground (arith, h.at j v, e, lookup-insert k j 1 t) })

seed_traits-IsCapped :
    (dead viable split : List String) (t : Table)
    → IsCapped t
    → IsCapped (seed_traits dead viable split t)
unfolding seed_traits
seed_traits-IsCapped dead viable split t h =
    IsCapped-seed_keys 4 split _
      (IsCapped-seed_keys 8 viable (bury t dead) (IsCapped-bury dead t h))

-- Seeding keeps the limit of all weights.
pub seed_from_triage-IsBounded :
    {Other : Type 0} (w : ScanWeights) (p : TriageProfile Other)
    → IsBounded w
    → IsBounded (seed_from_triage w (some p))
unfolding seed_from_triage
seed_from_triage-IsBounded w p h = record {
  family = IsCapped-seed_keys 20 (families_for_profile (some p)) w.family h.family;
  blob = IsCapped-seed_keys 5 (blob_keys p.viable_blobs) w.blob h.blob;
  trait =
      seed_traits-IsCapped (fool_keys (dead_fooling_tokens (some p)))
        (fool_keys (names_of p.viable_foolings)) (split_keys p.split_mode) w.trait h.trait;
}

-- Seeding the weights from a profile a second time changes nothing; and a fooling that the profile has as
-- dead has the weight 0.1 afterwards, whatever else is seeded.
pub seed_from_triage-again :
    {Other : Type 0} (w : ScanWeights) (p : TriageProfile Other)
    → (seed_from_triage (seed_from_triage w (some p)) (some p) ≡ seed_from_triage w (some p))
      × All
          (λ k. lookup k (seed_from_triage w (some p)).trait ≡ some 1)
          (fool_keys (dead_fooling_tokens (some p)))
unfolding seed_from_triage
seed_from_triage-again w p =
    let families = families_for_profile (some p) in
    let blobs = blob_keys p.viable_blobs in
    let dead = fool_keys (dead_fooling_tokens (some p)) in
    let viable = fool_keys (names_of p.viable_foolings) in
    let split = split_keys p.split_mode in
    (
      λ i. record (seed_from_triage w (some p)) {
        family = seed_keys-again 20 families w.family i;
        blob = seed_keys-again 5 blobs w.blob i;
        trait = seed_traits-again dead viable split w.trait i;
      },
      buried dead viable split w.trait,
    )

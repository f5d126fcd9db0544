-- ===== src/Weights/Bounds.antt =====
-- Weights stay bounded and grow with each pass.
use blockcheck_s.Prelude.{
  ℕ, ◌+◌, ◌≤◌, false, String, some, List, [], ◌∷◌, string_eq, ==_iff, ◌≡◌, arith,
}
use blockcheck_s.Prelude.Dict.{lookup, lookup-insert, lookup-nil, contains-add}
use blockcheck_s.Weights.{
  Table, ScanWeights, max_weight, fresh, get_or, total, get, raise, raise_all, boost_pass,
  boost_provider_once,
}

-- No weight of the table passes the limit.
pub record IsCapped (t : Table) : Type 0 where
  pub at : (k : String) (v : ℕ) → lookup k t ≡ some v → v ≤ max_weight

pub record IsBounded (w : ScanWeights) : Type 0 where
  pub family : IsCapped w.family
  pub blob : IsCapped w.blob
  pub trait : IsCapped w.trait

pub fresh-IsBounded : IsBounded fresh
fresh-IsBounded = record {
  family = record { at = λ k v e. cc (lookup-nil {V = ℕ} k) };
  blob = record { at = λ k v e. cc (lookup-nil {V = ℕ} k) };
  trait = record { at = λ k v e. cc (lookup-nil {V = ℕ} k) };
}

raise-IsCapped : (t : Table) (k : String) (d b : ℕ) → IsCapped t → IsCapped (raise t k d b)
unfolding raise
raise-IsCapped t k d b h = record {
  at = λ j v e. grind (arith, h.at j v, lookup-insert, ==_iff k j);
}

raise_all-IsCapped :
    (t : Table) (ks : List String) (b : ℕ) → IsCapped t → IsCapped (raise_all t ks b)
unfolding raise_all
raise_all-IsCapped t [] b h = h
raise_all-IsCapped t (k ∷ ks) b h =
    raise_all-IsCapped (raise t k 0 b) ks b (raise-IsCapped t k 0 b h)

-- A boost keeps all weights within the limit, if they are so before.
pub boost_pass-IsBounded :
    (w : ScanWeights) (family : String) (blobs traits : List String)
    → IsBounded w
    → IsBounded (boost_pass w family blobs traits)
unfolding boost_pass
boost_pass-IsBounded w family blobs traits h = record {
  family = raise-IsCapped w.family family 10 w.family_boost h.family;
  blob = raise_all-IsCapped w.blob blobs w.blob_boost h.blob;
  trait = raise_all-IsCapped w.trait traits w.trait_boost h.trait;
}

-- What a look-up finds never falls, and for the key it grows by the boost up to the limit.
get_or-raise :
    (t : Table) (k j : String) (d b : ℕ)
    → IsCapped t
    → d ≤ max_weight
    → get_or t j d ≤ get_or (raise t k d b) j d
unfolding raise get_or
get_or-raise t k j d b h p = grind (arith, h.at j, lookup-insert, ==_iff k j)

get_or-raise_all :
    (t : Table) (ks : List String) (j : String) (b : ℕ)
    → IsCapped t
    → get_or t j 0 ≤ get_or (raise_all t ks b) j 0
unfolding raise_all
get_or-raise_all t [] j b h = omega arith
get_or-raise_all t (k ∷ ks) j b h = omega (
  arith,
  get_or-raise t k j 0 b h (omega arith),
  get_or-raise_all (raise t k 0 b) ks j b (raise-IsCapped t k 0 b h),
)

total_mono :
    (t u : Table)
    → ((j : String) → get_or t j 0 ≤ get_or u j 0)
    → (js : List String) (a b : ℕ) → a ≤ b
    → total t js a ≤ total u js b
unfolding total
total_mono t u h [] a b p = p
total_mono t u h (j ∷ js) a b p =
    total_mono t u h js (a + get_or t j 0) (b + get_or u j 0) (omega (arith, h j))

-- A pass lowers no score: whatever family, blobs and traits are asked for, the score after the boost
-- is at least the one before, if the weights lie within the limit.
pub get-boost_pass :
    (w : ScanWeights) (family : String) (blobs traits : List String) (f : String)
    (bs ts : List String)
    → IsBounded w
    → get w f bs ts ≤ get (boost_pass w family blobs traits) f bs ts
unfolding get boost_pass
get-boost_pass w family blobs traits f bs ts h =
    total_mono w.trait (raise_all w.trait traits w.trait_boost)
      (λ j. get_or-raise_all w.trait traits j w.trait_boost h.trait) ts _ _
      (total_mono w.blob (raise_all w.blob blobs w.blob_boost)
        (λ j. get_or-raise_all w.blob blobs j w.blob_boost h.blob) bs _ _
        (get_or-raise w.family family f 10 w.family_boost h.family (omega arith)))

-- The boost from the provider is applied once for each strategy: a second call, whatever its other
-- arguments, changes nothing and says so.
pub boost_provider_once_lem :
    (w : ScanWeights) (k f g : String) (bs ts cs us : List String)
    → let w' = (boost_provider_once w k f bs ts).0 in boost_provider_once w' k g cs us ≡ (w', false)
unfolding boost_provider_once boost_pass
boost_provider_once_lem w k f g bs ts cs us =
    ground (arith, contains-add k k w.provider_boosted, ==_iff k k)

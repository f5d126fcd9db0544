-- ===== src/Prelude/Dict.antt =====
-- Python's `dict` in insertion order, and `set`, over keys with an equality test.
use mathlib.Core.Path.{subst}
use blockcheck_s.Prelude.Lists.{All}
use blockcheck_s.Prelude.{
  if_both, if_split, sym, ◌≡◌, refl, Option, none, some, List, [], ◌∷◌, ◌++◌, arith, Bool, true,
  false, ◌||◌, Eq, ◌==◌, ==_iff, ==_refl, if◌then◌else◌,
}

module _ {ℓ κ} {K : Type ℓ} {V : Type κ} ⦃e : Eq K⦄ where
  -- `m.get(k)`
  unfoldable pub lookup : K → List (K × V) → Option V
  lookup k [] = none
  lookup k ((j, v) ∷ m) = if j == k then some v else lookup k m

  -- `m[k] = v`: an old key keeps its place, a new one goes to the end.
  unfoldable pub insert : K → V → List (K × V) → List (K × V)
  insert k v [] = (k, v) ∷ []
  insert k v ((j, w) ∷ m) = if j == k then (j, v) ∷ m else (j, w) ∷ insert k v m

  -- `m.pop(k, None)`
  unfoldable pub erase : K → List (K × V) → List (K × V)
  erase k [] = []
  erase k ((j, v) ∷ m) = let rest = erase k m in if j == k then rest else (j, v) ∷ rest

  unfoldable pub keys : List (K × V) → List K
  keys [] = []
  keys ((j, v) ∷ m) = j ∷ keys m

  pub lookup-nil : (k : K) → lookup k [] ≡ none
  unfolding lookup
  lookup-nil k = refl

  -- What a look-up of `asked` finds after an insertion at `at`.
  pub lookup-insert :
      (at asked : K) (new : V) (m : List (K × V))
      → lookup asked (insert at new m) ≡ (if at == asked then some new else lookup asked m)
  unfolding insert lookup
  lookup-insert at asked new [] = refl
  lookup-insert at asked new ((i, w) ∷ rest) =
      ground (arith, lookup-insert at asked new rest, ==_iff i at, ==_iff i asked, ==_iff at asked)

  pub lookup-erase :
      (k j : K) (m : List (K × V)) → lookup j (erase k m) ≡ (if k == j then none else lookup j m)
  unfolding lookup erase
  lookup-erase k j [] = ground arith
  lookup-erase k j ((i, w) ∷ m) =
      ground (arith, ==_iff k j, ==_iff i k, ==_iff i j, lookup-erase k j m)

  pub lookup-insert_self : (k : K) (v : V) (m : List (K × V)) → lookup k (insert k v m) ≡ some v
  lookup-insert_self k v m = simp (lookup-insert, ==_refl)

  pub lookup-erase_self : (k : K) (m : List (K × V)) → lookup k (erase k m) ≡ none
  lookup-erase_self k m = simp (lookup-erase, ==_refl)

  -- `k in m`
  abbrev pub has_key : K → List (K × V) → Bool
  has_key k m = elim (lookup k m) [ none ↦ false | some v ↦ true ]

pub ruleset dict_laws = (lookup-nil, lookup-insert, lookup-erase)

module _ {ℓ} {A : Type ℓ} ⦃e : Eq A⦄ where
  -- `a in s`
  unfoldable pub contains : List A → A → Bool
  contains [] a = false
  contains (x ∷ xs) a = x == a || contains xs a

  -- `s.add(a)`
  unfoldable pub add : A → List A → List A
  unfolding contains
  add a s = if contains s a then s else s ++ a ∷ []

  pub contains-append :
      (xs ys : List A) (a : A) → contains (xs ++ ys) a ≡ (contains xs a || contains ys a)
  unfolding contains
  contains-append [] ys a = refl
  contains-append (x ∷ xs) ys a = ground (arith, contains-append xs ys a)

  pub contains-add : (a b : A) (s : List A) → contains (add a s) b ≡ (a == b || contains s b)
  unfolding add
  contains-add a b s = ground (arith, contains-append s (a ∷ []) b, ==_iff a b)

  -- No member stands in the list twice.
  abbrev pub Distinct : List A → Type 0
  Distinct [] = Unit
  Distinct (x ∷ xs) = (contains xs x ≡ false) × Distinct xs

  pub Distinct-snoc :
      (xs : List A) (a : A) → contains xs a ≡ false → Distinct xs → Distinct (xs ++ a ∷ [])
  unfolding contains
  Distinct-snoc [] a h d = (refl, tt)
  Distinct-snoc (x ∷ xs) a h d = (
    ground (arith, contains-append xs (a ∷ []) x, ==_iff x a, ==_iff a x, d),
    Distinct-snoc xs a (ground arith) d.1,
  )

module _ {ℓ κ} {K : Type ℓ} {V : Type κ} ⦃e : Eq K⦄ where
  pub contains-keys : (k : K) (m : List (K × V)) → contains (keys m) k ≡ has_key k m
  unfolding contains keys lookup
  contains-keys k [] = refl
  contains-keys k ((j, v) ∷ m) = ground (arith, contains-keys k m)

  pub insert_new :
      (k : K) (v : V) (m : List (K × V)) → has_key k m ≡ false → insert k v m ≡ m ++ (k, v) ∷ []
  unfolding insert lookup
  insert_new k v [] h = refl
  insert_new k v ((j, w) ∷ m) h = ground (arith, insert_new k v m)

  keys_middle :
      (m r : List (K × V)) (k j : K) (v : V)
      → contains (keys (m ++ (k, v) ∷ r)) j ≡ false
      → (k == j) ≡ false
  unfolding keys contains
  keys_middle [] r k j v h = ground arith
  keys_middle ((i, w) ∷ m) r k j v h = keys_middle m r k j v (ground arith)

  pub Distinct-split :
      (m r : List (K × V)) (k : K) (v : V) → Distinct (keys (m ++ (k, v) ∷ r)) → has_key k m ≡ false
  unfolding keys lookup contains
  Distinct-split [] r k v d = refl
  Distinct-split ((j, w) ∷ m) r k v d =
      ground (arith, Distinct-split m r k v d.1, keys_middle m r k j v, d.0, ==_iff j k, ==_iff k j)

module _ {ℓ} {A : Type ℓ} ⦃e : Eq A⦄ where
  -- `s.discard(a)`
  unfoldable pub discard : A → List A → List A
  discard a [] = []
  discard a (x ∷ xs) = let rest = discard a xs in if x == a then rest else x ∷ rest

  pub contains-discard :
      (a b : A) (s : List A) → contains (discard a s) b ≡ (if a == b then false else contains s b)
  unfolding contains discard
  contains-discard a b [] = ground arith
  contains-discard a b (x ∷ xs) =
      ground (arith, contains-discard a b xs, ==_iff a b, ==_iff x a, ==_iff x b)

module _ {ℓ κ μ} {K : Type ℓ} {V : Type κ} ⦃e : Eq K⦄ (P : K × V → Type μ) where
  pub All-erase : (k : K) (m : List (K × V)) → All P m → All P (erase k m)
  unfolding erase
  All-erase k [] h = tt
  All-erase k ((j, v) ∷ m) h =
      if_both (All P) (j == k) (erase k m) ((j, v) ∷ erase k m) (All-erase k m h.1)
        (h.0, All-erase k m h.1)

  -- `P` holds of the new pair, and of a pair with an equal key and the new value.
  pub All-insert : (k : K) (v : V) (m : List (K × V)) → P (k, v) → All P m → All P (insert k v m)
  unfolding insert
  All-insert k v [] p h = (p, tt)
  All-insert k v ((j, w) ∷ m) p h =
      if_split (All P) (j == k) ((j, v) ∷ m) ((j, w) ∷ insert k v m)
        (λ same. (subst (λ i. P (i, v)) (sym ((==_iff j k).0 same)) p, h.1))
        (λ other. (h.0, All-insert k v m p h.1))

-- ===== src/Prelude/Lists.antt =====
-- Lists measured by native numbers, under the library's names, and tests on members.
use mathlib.Core.List.{append_assoc, append-nil}
unfoldable pub use mathlib.Core.List.{flatten}
use blockcheck_s.Prelude.{
  Bool, true, false, ap, ◌∙◌, ◌-◌, ◌≤◌, ℕ, zero, suc, ◌+◌, ◌≡◌, refl, sym, List, [], ◌∷◌, ◌++◌,
  arith,
}

-- A predicate by recursion computes to tuples, which the tactics read and build.
abbrev pub All {ℓ κ} : {A : Type ℓ} → (A → Type κ) → List A → Type κ
All P [] = Unit
All P (x ∷ xs) = P x × All P xs

module _ {ℓ} {A : Type ℓ} where
  abbrev pub length : List A → ℕ
  length [] = 0
  length (x ∷ xs) = suc (length xs)

  -- `not xs`
  abbrev pub is_nil : List A → Bool
  is_nil [] = true
  is_nil (x ∷ xs) = false

  abbrev pub take : ℕ → List A → List A
  take zero xs = []
  take (suc n) [] = []
  take (suc n) (x ∷ xs) = x ∷ take n xs

  abbrev pub drop : ℕ → List A → List A
  drop zero xs = xs
  drop (suc n) [] = []
  drop (suc n) (x ∷ xs) = drop n xs

  pub All-append {κ} : (P : A → Type κ) (xs ys : List A) → All P xs → All P ys → All P (xs ++ ys)
  All-append P [] ys h k = k
  All-append P (x ∷ xs) ys h k = (h.0, All-append P xs ys h.1 k)

  pub All-map {κ μ} :
      (P : A → Type κ) (Q : A → Type μ)
      → ((a : A) → P a → Q a)
      → (xs : List A) → All P xs
      → All Q xs
  All-map P Q f [] h = tt
  All-map P Q f (x ∷ xs) h = (f x h.0, All-map P Q f xs h.1)

  pub length-append : (xs ys : List A) → length (xs ++ ys) ≡ length xs + length ys
  length-append [] ys = omega arith
  length-append (x ∷ xs) ys = omega (arith, length-append xs ys)

  pub take-append-drop : (n : ℕ) (xs : List A) → take n xs ++ drop n xs ≡ xs
  take-append-drop zero xs = refl
  take-append-drop (suc n) [] = refl
  take-append-drop (suc n) (x ∷ xs) = rw (take-append-drop n xs)

module _ {ℓ} {A : Type ℓ} where
  pub flatten-append : (xs ys : List (List A)) → flatten (xs ++ ys) ≡ flatten xs ++ flatten ys
  unfolding flatten
  flatten-append [] ys = refl
  flatten-append (x ∷ xs) ys =
      rw (flatten-append xs ys) (sym (append_assoc x (flatten xs) (flatten ys)))

module _ {ℓ} {A : Type ℓ} where
  -- `[xs[i : i + n] for i in range(0, len(xs), n)]`; a list is cut at most as often as it is long.
  unfoldable pub chunks_fuel : ℕ → ℕ → List A → List (List A)
  chunks_fuel zero n xs = []
  chunks_fuel (suc f) n [] = []
  chunks_fuel (suc f) n (x ∷ xs) = take n (x ∷ xs) ∷ chunks_fuel f n (drop n (x ∷ xs))

  unfoldable pub chunks : ℕ → List A → List (List A)
  unfolding chunks_fuel
  chunks n xs = chunks_fuel (length xs) n xs

  pub length-take-le : (n : ℕ) (xs : List A) → length (take n xs) ≤ n
  length-take-le zero xs = omega arith
  length-take-le (suc n) [] = omega arith
  length-take-le (suc n) (x ∷ xs) = omega (arith, length-take-le n xs)

  pub length-drop : (n : ℕ) (xs : List A) → length (drop n xs) ≡ length xs - n
  length-drop zero xs = omega arith
  length-drop (suc n) [] = omega arith
  length-drop (suc n) (x ∷ xs) = omega (arith, length-drop n xs)

module _ {ℓ} {A : Type ℓ} where
  pub flatten-snoc : (xs : List (List A)) (x : List A) → flatten (xs ++ x ∷ []) ≡ flatten xs ++ x
  unfolding flatten
  flatten-snoc xs x = flatten-append xs (x ∷ []) ∙ ap (λ t. flatten xs ++ t) (append-nil x)

module _ {ℓ} {A : Type ℓ} where
  flatten-chunks_fuel :
      (f n : ℕ) (xs : List A) → length xs ≤ f → 1 ≤ n → flatten (chunks_fuel f n xs) ≡ xs
  unfolding flatten chunks_fuel
  flatten-chunks_fuel zero n [] h p = refl
  flatten-chunks_fuel (suc f) n [] h p = refl
  flatten-chunks_fuel zero n (x ∷ xs) h p = absurd (omega arith)
  flatten-chunks_fuel (suc f) zero (x ∷ xs) h p = absurd (omega arith)
  flatten-chunks_fuel (suc f) (suc n) (x ∷ xs) h p =
      rw (flatten-chunks_fuel f (suc n) (drop n xs) (omega (arith, length-drop n xs)) p)
        (take-append-drop (suc n) (x ∷ xs))

  -- Cutting loses nothing and keeps the order.
  pub flatten-chunks : (n : ℕ) (xs : List A) → 1 ≤ n → flatten (chunks n xs) ≡ xs
  unfolding chunks
  flatten-chunks n xs p = flatten-chunks_fuel (length xs) n xs (omega arith) p

  All-chunks_fuel :
      (f n : ℕ) (xs : List A)
      → 1 ≤ n
      → All (λ c. (1 ≤ length c) × (length c ≤ n)) (chunks_fuel f n xs)
  unfolding chunks_fuel
  All-chunks_fuel zero n xs p = tt
  All-chunks_fuel (suc f) n [] p = tt
  All-chunks_fuel (suc f) (suc n) (x ∷ xs) p =
      ((omega arith, length-take-le (suc n) (x ∷ xs)), All-chunks_fuel f (suc n) (drop n xs) p)
  All-chunks_fuel (suc f) zero (x ∷ xs) p = absurd (omega arith)

  -- Each piece has at least one and at most `n` members.
  pub All-chunks :
      (n : ℕ) (xs : List A) → 1 ≤ n → All (λ c. (1 ≤ length c) × (length c ≤ n)) (chunks n xs)
  unfolding chunks
  All-chunks n xs p = All-chunks_fuel (length xs) n xs p

module _ {ℓ κ} {A : Type ℓ} (P : A → Type κ) where
  All-take : (n : ℕ) (xs : List A) → All P xs → All P (take n xs)
  All-take zero xs h = tt
  All-take (suc n) [] h = tt
  All-take (suc n) (x ∷ xs) h = (h.0, All-take n xs h.1)

  pub All-drop : (n : ℕ) (xs : List A) → All P xs → All P (drop n xs)
  All-drop zero xs h = h
  All-drop (suc n) [] h = tt
  All-drop (suc n) (x ∷ xs) h = All-drop n xs h.1

  All-in_chunks_fuel : (f n : ℕ) (xs : List A) → All P xs → All (All P) (chunks_fuel f n xs)
  unfolding chunks_fuel
  All-in_chunks_fuel zero n xs h = tt
  All-in_chunks_fuel (suc f) n [] h = tt
  All-in_chunks_fuel (suc f) n (x ∷ xs) h =
      (All-take n (x ∷ xs) h, All-in_chunks_fuel f n (drop n (x ∷ xs)) (All-drop n (x ∷ xs) h))

  -- What holds of every member holds of those of each piece.
  pub All-in_chunks : (n : ℕ) (xs : List A) → All P xs → All (All P) (chunks n xs)
  unfolding chunks
  All-in_chunks n xs h = All-in_chunks_fuel (length xs) n xs h

-- The sum of a weight over a list.
abbrev pub weigh {ℓ} : {A : Type ℓ} → (A → ℕ) → List A → ℕ
weigh w [] = 0
weigh w (x ∷ xs) = w x + weigh w xs

pub weigh-append {ℓ} :
    {A : Type ℓ} (w : A → ℕ) (xs ys : List A) → weigh w (xs ++ ys) ≡ weigh w xs + weigh w ys
weigh-append w [] ys = omega arith
weigh-append w (x ∷ xs) ys = omega (arith, weigh-append w xs ys)

-- What holds of a match on a list, where each case may use the shape of the list.
pub list_split {ℓ μ κ} :
    {A : Type ℓ} {B : Type μ} (P : B → Type κ) (xs : List A) (n : B) (c : A → List A → B)
    → (xs ≡ [] → P n)
    → ((y : A) (ys : List A) → xs ≡ y ∷ ys → P (c y ys))
    → P (elim xs [ [] ↦ n | y ∷ ys ↦ c y ys ])
list_split P [] n c h k = h refl
list_split P (x ∷ xs) n c h k = k x xs refl

pub All-both {ℓ κ μ} :
    {A : Type ℓ} (P : A → Type κ) (Q : A → Type μ) (xs : List A)
    → All P xs
    → All Q xs
    → All (λ x. P x × Q x) xs
All-both P Q [] h k = tt
All-both P Q (x ∷ xs) h k = ((h.0, k.0), All-both P Q xs h.1 k.1)

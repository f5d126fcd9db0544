-- ===== src/Families/Sorting.antt =====
-- Python's `sorted`, as an insertion that keeps the order of equal values.
use blockcheck_s.Prelude.{
  ℕ, ◌+◌, Bool, true, false, List, [], ◌∷◌, if◌then◌else◌, ◌≡◌, refl, arith, if_split,
}
use blockcheck_s.Prelude.Lists.{All, weigh}

module _ {A : Type 0} (less : A → A → Bool) where
  unfoldable pub insert_sorted : A → List A → List A
  insert_sorted x [] = x ∷ []
  insert_sorted x (y ∷ ys) =
      let more = insert_sorted x ys in if less y x then y ∷ more else x ∷ y ∷ ys

  unfoldable pub sorted : List A → List A
  sorted [] = []
  sorted (x ∷ xs) = insert_sorted x (sorted xs)

-- Each value stands before those after it.
abbrev pub Ordered {ℓ κ} : {A : Type ℓ} → (A → A → Type κ) → List A → Type κ
Ordered R [] = Unit
Ordered R (x ∷ xs) = All (R x) xs × Ordered R xs

module _ {A : Type 0} (less : A → A → Bool) where
  insert_sorted-weigh :
      (w : A → ℕ) (x : A) (xs : List A) → weigh w (insert_sorted less x xs) ≡ w x + weigh w xs
  unfolding insert_sorted
  insert_sorted-weigh w x [] = refl
  insert_sorted-weigh w x (y ∷ ys) =
      if_split (λ r. weigh w r ≡ w x + (w y + weigh w ys)) (less y x) _ _
        (λ e. omega (arith, insert_sorted-weigh w x ys)) (λ e. refl)

  pub sorted-weigh : (w : A → ℕ) (xs : List A) → weigh w (sorted less xs) ≡ weigh w xs
  unfolding sorted
  sorted-weigh w [] = refl
  sorted-weigh w (x ∷ xs) =
      omega (arith, insert_sorted-weigh w x (sorted less xs), sorted-weigh w xs)

  All-insert_sorted :
      (P : A → Type 0) (x : A) (xs : List A) → P x → All P xs → All P (insert_sorted less x xs)
  unfolding insert_sorted
  All-insert_sorted P x [] h k = (h, tt)
  All-insert_sorted P x (y ∷ ys) h k =
      if_split (All P) (less y x) _ _ (λ e. (k.0, All-insert_sorted P x ys h k.1)) (λ e. (h, k))

  pub All-sorted : (P : A → Type 0) (xs : List A) → All P xs → All P (sorted less xs)
  unfolding sorted
  All-sorted P [] h = tt
  All-sorted P (x ∷ xs) h = All-insert_sorted P x (sorted less xs) h.0 (All-sorted P xs h.1)

  All-from_insert :
      (P : A → Type 0) (x : A) (xs : List A) → All P (insert_sorted less x xs) → P x × All P xs
  unfolding insert_sorted
  All-from_insert P x [] h = h
  All-from_insert P x (y ∷ ys) h =
      if_split (λ r. All P r → P x × All P (y ∷ ys)) (less y x) _ _
        (λ e a. let (k, l) = All-from_insert P x ys a.1 in (k, (a.0, l))) (λ e a. a) h

  pub All-from_sorted : (P : A → Type 0) (xs : List A) → All P (sorted less xs) → All P xs
  unfolding sorted
  All-from_sorted P [] h = tt
  All-from_sorted P (x ∷ xs) h =
      let (k, l) = All-from_insert P x (sorted less xs) h in (k, All-from_sorted P xs l)

  module _ (R : A → A → Type 0) (yes : (a b : A) → less a b ≡ true → R a b)
      (no : (a b : A) → less a b ≡ false → R b a)
      (trans : (a b c : A) → R a b → R b c → R a c) where
    All-trans : (x y : A) (ys : List A) → R x y → All (R y) ys → All (R x) ys
    All-trans x y [] h k = tt
    All-trans x y (z ∷ zs) h k = (trans x y z h k.0, All-trans x y zs h k.1)

    insert_sorted-Ordered :
        (x : A) (xs : List A) → Ordered R xs → Ordered R (insert_sorted less x xs)
    unfolding insert_sorted
    insert_sorted-Ordered x [] h = (tt, tt)
    insert_sorted-Ordered x (y ∷ ys) h =
        if_split (Ordered R) (less y x) _ _
          (λ e. (All-insert_sorted (R y) x ys (yes y x e) h.0, insert_sorted-Ordered x ys h.1))
          (λ e. ((no y x e, All-trans x y ys (no y x e) h.0), h))

    pub sorted-Ordered : (xs : List A) → Ordered R (sorted less xs)
    unfolding sorted
    sorted-Ordered [] = tt
    sorted-Ordered (x ∷ xs) = insert_sorted-Ordered x (sorted less xs) (sorted-Ordered xs)

-- ===== src/Families/Classes.antt =====
-- What `classify_strategy_family` and `sort_by_family` of src/blockchecks/engine/family_needs.py give.
use mathlib.Core.Path.{subst}
use blockcheck_s.Prelude.{
  ℕ, ◌≤◌, true, String, List, [], ◌∷◌, ◌++◌, ◌≡◌, refl, sym, arith, if_split, ◌⊎◌, inl, inr,
}
use Prim.Native.String.{len}
use blockcheck_s.Prelude.Text.{lower, starts}
use blockcheck_s.Prelude.Lists.{weigh, All, All-append, list_split}
use blockcheck_s.Job.{StrategyItem}
use blockcheck_s.Families.Sorting.{
  sorted, sorted-weigh, Ordered, sorted-Ordered, All-sorted, All-from_sorted,
}
use blockcheck_s.Families.{
  FamilySpec, registry, family_rank, hits_of, hits_in, longer, classify_by_strategy,
  classify_strategy_family, sorts_before, sort_by_family,
}

All-weaken :
    {A : Type 0} (P Q : A → Type 0) → ((a : A) → P a → Q a) → (xs : List A) → All P xs → All Q xs
All-weaken P Q f [] h = tt
All-weaken P Q f (x ∷ xs) h = (f x h.0, All-weaken P Q f xs h.1)

All-parts : {A : Type 0} (P : A → Type 0) (xs ys : List A) → All P (xs ++ ys) → All P xs × All P ys
All-parts P [] ys h = (tt, h)
All-parts P (x ∷ xs) ys h = let (k, l) = All-parts P xs ys h.1 in ((h.0, k), l)

-- No longer than another one.
abbrev IsAtLeast : String × String → String × String → Type 0
IsAtLeast a b = len b.0 ≤ len a.0

hits_sorted : (xs : List (String × String)) → Ordered IsAtLeast (sorted longer xs)
hits_sorted xs =
    sorted-Ordered longer IsAtLeast (λ a b e. ground (arith, e)) (λ a b e. ground (arith, e))
      (λ a b c h k. omega (arith, h, k)) xs

abbrev pub IsIn : String → List String → Type 0
IsIn p [] = ⊥
IsIn p (q ∷ rest) = (q ≡ p) ⊎ IsIn p rest

-- The prefix is one of those of the family.
abbrev pub Declares : List FamilySpec → String → String → Type 0
Declares [] prefix name = ⊥
Declares (s ∷ rest) prefix name =
    ((s.name ≡ name) × IsIn prefix s.label_prefixes) ⊎ Declares rest prefix name

-- What holds of every prefix in the registry, with its family.
abbrev pub AllPrefixes : (String × String → Type 0) → List FamilySpec → Type 0
AllPrefixes P specs = All (λ (s : FamilySpec). All (λ q. P (q, s.name)) s.label_prefixes) specs

module _ (label : String) where
  hits_of-declared :
      (name : String) (prefixes : List String)
      → All
          (λ h. (starts label h.0 ≡ true) × (h.1 ≡ name) × IsIn h.0 prefixes)
          (hits_of label name prefixes)
  unfolding hits_of
  hits_of-declared name [] = tt
  hits_of-declared name (q ∷ rest) =
      let P : String × String → Type 0 =
        λ h. (starts label h.0 ≡ true) × (h.1 ≡ name) × IsIn h.0 (q ∷ rest) in
      let more : All P (hits_of label name rest) =
        All-weaken _ _ (λ h k. (k.0, k.1, inr k.2)) (hits_of label name rest)
          (hits_of-declared name rest) in
      if_split (All P) (starts label q) _ _ (λ e. ((e, refl, inl refl), more)) (λ e. more)

  hits_in-declared :
      (specs : List FamilySpec)
      → All (λ h. (starts label h.0 ≡ true) × Declares specs h.0 h.1) (hits_in label specs)
  unfolding hits_in
  hits_in-declared [] = tt
  hits_in-declared (s ∷ rest) =
      All-append _ (hits_of label s.name s.label_prefixes) (hits_in label rest)
        (All-weaken _ _ (λ h k. (k.0, inl (sym k.1, k.2))) (hits_of label s.name s.label_prefixes)
          (hits_of-declared s.name s.label_prefixes))
        (All-weaken _ _ (λ h k. (k.0, inr k.1)) (hits_in label rest) (hits_in-declared rest))

  -- A statement about all the hits is one about all the prefixes that the label starts with.
  module _ (P : String × String → Type 0) where
    prefixes_of_hits :
        (name : String) (prefixes : List String)
        → All P (hits_of label name prefixes)
        → All (λ q. starts label q ≡ true → P (q, name)) prefixes
    unfolding hits_of
    prefixes_of_hits name [] h = tt
    prefixes_of_hits name (q ∷ rest) hits =
        if_split (λ x. All P x → All (λ q. starts label q ≡ true → P (q, name)) (q ∷ rest))
          (starts label q) _ _ (λ e h. (λ s. h.0, prefixes_of_hits name rest h.1))
          (λ e h. (λ s. absurd (cc (e, s)), prefixes_of_hits name rest h)) hits

    all_prefixes :
        (specs : List FamilySpec)
        → All P (hits_in label specs)
        → AllPrefixes (λ h. starts label h.0 ≡ true → P h) specs
    unfolding hits_in
    all_prefixes [] h = tt
    all_prefixes (s ∷ rest) h =
        let (k, l) = All-parts P (hits_of label s.name s.label_prefixes) (hits_in label rest) h in
        (prefixes_of_hits s.name s.label_prefixes k, all_prefixes rest l)

-- How the class of a label and a strategy comes about.
abbrev pub IsClass : String → String → String → Type 0
IsClass label strat class =
    ((class ≡ classify_by_strategy label strat)
      × AllPrefixes (λ h. starts label h.0 ≡ true → ⊥) registry)
    ⊎ ((p : String) × (starts label p ≡ true)
        × Declares registry p class
        × AllPrefixes (λ h. starts label h.0 ≡ true → len h.0 ≤ len p) registry)

-- The class of an item is that of a longest prefix of its label in the registry, in lower case; if the
-- label starts with none of them, it is what the strategy says.
pub classify_strategy_family-IsClass :
    (item : StrategyItem)
    → IsClass (lower item.label) (lower item.strategy) (classify_strategy_family item)
unfolding classify_strategy_family
classify_strategy_family-IsClass item =
    let label = lower item.label in
    let hits = hits_in label registry in
    list_split {B = String} (IsClass label (lower item.strategy)) (sorted longer hits) _ _
      (λ e. inl (
        refl,
        all_prefixes label (λ h. ⊥) registry
            (All-from_sorted longer (λ h. ⊥) hits (subst (All (λ h. ⊥)) (sym e) tt)),
      ))
      (λ hit rest e.
        let found =
          subst (All (λ h. (starts label h.0 ≡ true) × Declares registry h.0 h.1)) e
            (All-sorted longer _ hits (hits_in-declared label registry)) in
        let order = subst (Ordered IsAtLeast) e (hits_sorted hits) in
        let most =
          All-from_sorted longer (λ h. len h.0 ≤ len hit.0) hits
            (subst (All (λ h. len h.0 ≤ len hit.0)) (sym e) (omega arith, order.0)) in
        inr (
          hit.0,
          found.0.0,
          found.0.1,
          all_prefixes label (λ h. len h.0 ≤ len hit.0) registry most,
        ))

-- In the order of the ranks of the families.
abbrev pub IsBefore : StrategyItem → StrategyItem → Type 0
IsBefore a b = family_rank (classify_strategy_family a) ≤ family_rank (classify_strategy_family b)

-- What `sort_by_family` gives are the items that it was given, as often as they were there, and no
-- family stands after one of a greater rank: so each of the families for TCP is in one piece.
pub sort_by_family-Ordered :
    (items : List StrategyItem)
    → Ordered IsBefore (sort_by_family items)
      × ((w : StrategyItem → ℕ) → weigh w (sort_by_family items) ≡ weigh w items)
unfolding sort_by_family sorts_before
sort_by_family-Ordered items = (
  sorted-Ordered sorts_before IsBefore (λ a b e. ground (arith, e)) (λ a b e. ground (arith, e))
      (λ a b c h k. omega (arith, h, k)) items,
  λ w. sorted-weigh sorts_before w items,
)

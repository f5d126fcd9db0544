-- ===== src/Families/Gates/Closing.antt =====
-- What closes the gate of the family `multisplit` in src/blockchecks/engine/family_needs.py, and the
-- loop over the tests of a family.
use mathlib.Core.Path.{subst}
use blockcheck_s.Prelude.{
  ◌%◌, Bool, true, false, ◌&&◌, ◌||◌, not, String, List, [], ◌∷◌, ◌++◌, string_eq, eqb, ◌==◌,
  if◌then◌else◌, ◌≡◌, refl, sym, ◌∙◌, ap, arith, if_both, if_split, ==_iff, Bool-cases, ◌⊎◌, inl,
  inr,
}
use blockcheck_s.Prelude.Text.{contains_text}
use blockcheck_s.Prelude.Lists.{All, All-append, length}
use blockcheck_s.Job.{StrategyItem}
use blockcheck_s.Families.{classify_strategy_family}
use blockcheck_s.Families.Sorting.{Ordered}
use blockcheck_s.Families.Gates.{
  FamilyNeedTracker, Site, Tested, Run, report, look, finish_family, add_result, test_items,
}

abbrev pub is_multi : StrategyItem → Bool
is_multi item = classify_strategy_family item == "multisplit"

abbrev pub names_multi : StrategyItem → Bool
names_multi item =
    contains_text item.strategy "multisplit" || contains_text item.strategy "multidisorder"

-- A pass of the family, and a strategy of another family that it makes superfluous.
abbrev pub closes : Tested → Bool
closes t = t.success && is_multi t.item

abbrev pub is_closed : Tested → Bool
is_closed t = names_multi t.item && not (is_multi t.item)

abbrev pub Allowed : Tested → Tested → Type 0
Allowed before after = (closes before && is_closed after) ≡ false

-- No pass of the family so far.
abbrev pub IsOpen : Run → Type 0
IsOpen r = All (λ t. closes t ≡ false) r.results

Ordered-snoc :
    (xs : List Tested) (t : Tested)
    → Ordered Allowed xs
    → All (λ u. Allowed u t) xs
    → Ordered Allowed (xs ++ t ∷ [])
Ordered-snoc [] t h k = (tt, tt)
Ordered-snoc (x ∷ xs) t h k =
    (All-append (Allowed x) xs (t ∷ []) h.0 (k.0, tt), Ordered-snoc xs t h.1 k.1)

pub All-map_to :
    {A : Type 0} (P Q : A → Type 0) → ((a : A) → P a → Q a) → (xs : List A) → All P xs → All Q xs
All-map_to P Q f [] h = tt
All-map_to P Q f (x ∷ xs) h = (f x h.0, All-map_to P Q f xs h.1)

all_of : {A : Type 0} (P : A → Type 0) → ((a : A) → P a) → (xs : List A) → All P xs
all_of P f [] = tt
all_of P f (x ∷ xs) = (f x, all_of P f xs)

pub finish_family-other :
    (t : FamilyNeedTracker) (fam : String) (b : Bool)
    → (fam == "multisplit") ≡ false
    → (finish_family t fam b).need_multisplit ≡ t.need_multisplit
unfolding finish_family
finish_family-other t fam b e = ground (arith, e)

finish_family-multi :
    (t : FamilyNeedTracker) (fam : String)
    → (fam == "multisplit") ≡ true
    → (finish_family t fam true).need_multisplit ≡ 0
unfolding finish_family
finish_family-multi t fam e =
    subst (λ f. (finish_family t f true).need_multisplit ≡ 0) (sym ((==_iff fam "multisplit").0 e))
      refl

-- The state in the loop over the tests of a family; `T` is what is known if the gate was closed before.
abbrev pub InLoop : Type 0 → String → Bool → Run → Type 0
InLoop T fam had r =
    Ordered Allowed r.results
    × (IsOpen r
        ⊎ (((fam == "multisplit") ≡ true × had ≡ true)
            ⊎ ((fam == "multisplit") ≡ false × r.tracker.need_multisplit ≡ 0 × T)))

-- After it.
abbrev pub AfterLoop : Type 0 → String → Run → Type 0
AfterLoop T fam r =
    Ordered Allowed r.results
    × (IsOpen r ⊎ (r.tracker.need_multisplit ≡ 0 × ((fam == "multisplit") ≡ true ⊎ T)))

-- What the family gathers: items of its class, without those that a closed gate skips.
abbrev pub IsGathered : String → FamilyNeedTracker → StrategyItem → Type 0
IsGathered fam t item =
    (classify_strategy_family item ≡ fam) × ((eqb t.need_multisplit 0 && names_multi item) ≡ false)

module _ (T : Type 0) (fam : String) where
  finish_loop :
      (had : Bool) (r : Run)
      → InLoop T fam had r
      → AfterLoop T fam (record r { tracker = finish_family r.tracker fam had })
  finish_loop had r (o, inl free) = (o, inl free)
  finish_loop had r (o, inr (inl (multi, passed))) = (
    o,
    inr (
      ap (λ b. (finish_family r.tracker fam b).need_multisplit) passed
          ∙ finish_family-multi r.tracker fam multi,
      inl multi,
    ),
  )
  finish_loop had r (o, inr (inr (other, closed, known))) =
      (o, inr (finish_family-other r.tracker fam had other ∙ closed, inr known))

  add_one :
      (had success : Bool) (item : StrategyItem) (r : Run)
      → IsGathered fam r.tracker item
      → InLoop T fam had r
      → InLoop T fam
          (had || success)
          (record r { results = r.results ++ record { item = item; success = success } ∷ [] })
  add_one had success item r (class, ungated) (o, h) =
      let t : Tested = record { item = item; success = success } in
      let same : is_multi item ≡ (fam == "multisplit") =
        ap (λ (f : String). f == "multisplit") class in
      let first : All (λ u. Allowed u t) r.results = elim h [
        | inl free ↦
            All-map_to (λ u. closes u ≡ false) (λ u. Allowed u t) (λ u e. ground (arith, e))
              r.results free
        | inr (inl (multi, passed)) ↦
            all_of (λ u. Allowed u t) (λ u. ground (arith, same, multi)) r.results
        | inr (inr (other, closed, known)) ↦
            all_of (λ u. Allowed u t) (λ u. ground (arith, ungated, closed)) r.results
      ] in
      (
        Ordered-snoc r.results t o first,
        elim h [
          | inl free ↦ elim (Bool-cases (closes t)) [
            | inl closing ↦ inr (inl (sym same ∙ ground (arith, closing), ground (arith, closing)))
            | inr still ↦
                inl (All-append (λ u. closes u ≡ false) r.results (t ∷ []) free (still, tt))
          ]
          | inr (inl (multi, passed)) ↦ inr (inl (multi, ground (arith, passed)))
          | inr (inr x) ↦ inr (inr x)
        ],
      )

  -- The tests of a family.
  pub test_items-AfterLoop :
      (site : Site) (items : List StrategyItem) (had : Bool) (r : Run)
      → All (IsGathered fam r.tracker) items
      → InLoop T fam had r
      → AfterLoop T fam (test_items site fam items had r).0
  unfolding test_items add_result
  test_items-AfterLoop site [] had r k h = finish_loop had r h
  test_items-AfterLoop site (item ∷ rest) had r k h =
      let success = site.test (length r.results) item in
      let tested = add_result site item (look r) in
      let after = if eqb (tested.done % 50) 0 then report tested else tested in
      let P : Run × Bool → Type 0 = λ x. AfterLoop T fam x.0 in
      let one : InLoop T fam (had || success) tested = add_one had success item r k.0 h in
      let (kept, one') : (after.tracker ≡ r.tracker) × InLoop T fam (had || success) after =
        if_both (λ (x : Run). (x.tracker ≡ r.tracker) × InLoop T fam (had || success) x)
          (eqb (tested.done % 50) 0) (report tested) tested (refl, one) (refl, one) in
      let more =
        test_items-AfterLoop site rest (had || success) after
          (subst (λ t. All (IsGathered fam t) rest) (sym kept) k.1) one' in
      if_both P (site.stopped r.looks) _ _ (finish_loop had r h) (
        if_split P (success && site.scan_level == "single") _ _
          (λ cut.
            let passed : (had || success) ≡ true = ground (arith, cut) in
            finish_loop true tested (subst (λ b. InLoop T fam b tested) passed one))
          (λ on. more))

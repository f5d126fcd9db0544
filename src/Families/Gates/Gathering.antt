-- ===== src/Families/Gates/Gathering.antt =====
-- What `run_tcp_with_family_gates` of src/blockchecks/engine/family_needs.py gathers of a family, and
-- what it leaves of the items.
use mathlib.Core.Path.{subst}
use mathlib.Core.Option.{some-injective}
use blockcheck_s.Prelude.{
  ℕ, zero, suc, ◌≤◌, true, false, ◌&&◌, String, Option, none, some, List, [], ◌∷◌, ◌++◌, string_eq,
  eqb, ◌==◌, ◌≡◌, refl, sym, ◌∙◌, ap, arith, if_both, if_split, option_split, ==_iff, Bool-cases,
  Option-cases, inl, inr,
}
use blockcheck_s.Prelude.Dict.{contains}
use blockcheck_s.Prelude.Lists.{All, All-append}
use blockcheck_s.Job.{StrategyItem}
use blockcheck_s.Families.{
  classify_strategy_family, family_rank, place_of, tcp_families, names_of, registry,
}
use blockcheck_s.Families.Sorting.{Ordered}
use blockcheck_s.Families.Classes.{IsBefore}
use blockcheck_s.Families.Gates.{
  FamilyNeedTracker, Site, Tested, Run, Gathered, skip_one, skip_strategy, skip_over, was_done,
  gather_one, gather_family,
}
use blockcheck_s.Families.Gates.Closing.{is_multi, names_multi, All-map_to, IsGathered}

-- What the gathering of a family leaves alone, and what it gathers, with the tracker `t`.
pub record Gathers (t : FamilyNeedTracker) (known : List Tested) (fam : String) (g : Gathered)
    : Type 0 where
  pub tracker : g.run.tracker ≡ t
  pub results : g.run.results ≡ known
  pub items : All (IsGathered fam t) g.family_items

-- The rest of a list keeps what holds of all its members, and its order.
pub record IsRest (items left : List StrategyItem) : Type 1 where
  pub all : (P : StrategyItem → Type 0) → All P items → All P left
  pub order : (R : StrategyItem → StrategyItem → Type 0) → Ordered R items → Ordered R left

module _ (site : Site) (gates : (site.scan_level == "full") ≡ false) where
  module _ (t : FamilyNeedTracker) (results : List Tested) (fam : String) where
    gather_one-Gathers :
        (item : StrategyItem) (g : Gathered)
        → classify_strategy_family item ≡ fam
        → Gathers t results fam g
        → Gathers t results fam (gather_one site item g)
    unfolding gather_one skip_strategy
    gather_one-Gathers item g class h =
        let P = Gathers t results fam in
        let skipped : (labels : List String)
            → P (record g { run = skip_one g.run; family_skipped_labels = labels }) =
          λ labels. record { tracker = h.tracker; results = h.results; items = h.items } in
        if_both P (was_done site item.label) _ _
          (skipped (g.family_skipped_labels ++ item.label ∷ []))
          (if_split P (skip_strategy g.run.tracker item site.scan_level) _ _
            (λ skips. skipped g.family_skipped_labels)
            (λ takes.
              let clear : (eqb t.need_multisplit 0 && names_multi item) ≡ false =
                subst
                  (λ (x : FamilyNeedTracker). (eqb x.need_multisplit 0 && names_multi item) ≡ false)
                  h.tracker (ground (arith, takes, gates)) in
              record {
                tracker = h.tracker;
                results = h.results;
                items =
                    All-append (IsGathered fam t) g.family_items (item ∷ []) h.items
                      ((class, clear), tt);
              }))

    pub gather_family-Gathers :
        (items : List StrategyItem) (g : Gathered)
        → Gathers t results fam g
        → Gathers t results fam (gather_family site fam items g).0
    unfolding gather_family
    gather_family-Gathers [] g h = h
    gather_family-Gathers (item ∷ rest) g h =
        if_split {A = Gathered × List StrategyItem} (λ x. Gathers t results fam x.0)
          (classify_strategy_family item == fam) _ _
          (λ same.
            gather_family-Gathers rest (gather_one site item g)
              (gather_one-Gathers item g ((==_iff (classify_strategy_family item) fam).0 same) h))
          (λ other. h)

  pub gather_family-IsRest :
      (fam : String) (items : List StrategyItem) (g : Gathered)
      → IsRest items (gather_family site fam items g).1
  unfolding gather_family
  gather_family-IsRest fam [] g = record { all = λ P h. h; order = λ R h. h }
  gather_family-IsRest fam (item ∷ rest) g =
      let more = gather_family-IsRest fam rest (gather_one site item g) in
      if_both {A = Gathered × List StrategyItem} (λ x. IsRest (item ∷ rest) x.1)
        (classify_strategy_family item == fam) _ _
        (record { all = λ P h. more.all P h.1; order = λ R h. more.order R h.1 })
        (record { all = λ P h. h; order = λ R h. h })

pub skip_over-IsRest :
    (fam : String) (items : List StrategyItem) (r : Run)
    → IsRest items (skip_over fam items r).1
      × ((skip_over fam items r).0.tracker ≡ r.tracker)
      × ((skip_over fam items r).0.results ≡ r.results)
unfolding skip_over
skip_over-IsRest fam [] r = (record { all = λ P h. h; order = λ R h. h }, refl, refl)
skip_over-IsRest fam (item ∷ rest) r =
    let (more, t, s) = skip_over-IsRest fam rest (skip_one r) in
    if_both {A = Run × List StrategyItem}
      (λ x. IsRest (item ∷ rest) x.1 × (x.0.tracker ≡ r.tracker) × (x.0.results ≡ r.results))
      (classify_strategy_family item == fam) _ _
      (record { all = λ P h. more.all P h.1; order = λ R h. more.order R h.1 }, t, s)
      (record { all = λ P h. h; order = λ R h. h }, refl, refl)

-- The rank of `multisplit` is that of no other family.
nth : ℕ → List String → Option String
nth i [] = none
nth zero (n ∷ rest) = some n
nth (suc i) (n ∷ rest) = nth i rest

place_of-nth :
    (name : String) (ns : List String) (i : ℕ) → place_of name ns ≡ some i → nth i ns ≡ some name
unfolding place_of nth
place_of-nth name [] i e = absurd (cc e)
place_of-nth name (n ∷ rest) i e =
    let P : Option ℕ → Type 0 = λ o. o ≡ some i → nth i (n ∷ rest) ≡ some name in
    if_split P (n == name) _ _
      (λ same z.
        subst (λ k. nth k (n ∷ rest) ≡ some name) (some-injective 0 i z)
          (ap {B = Option String} some ((==_iff n name).0 same)))
      (λ other.
        option_split P (place_of name rest) none (λ place. some (suc place))
          (λ missing z. absurd (cc z))
          (λ place found z.
            subst (λ k. nth k (n ∷ rest) ≡ some name) (some-injective (suc place) i z)
              (place_of-nth name rest place found)))
      e

seventh : nth 6 tcp_families ≡ some "multisplit"
unfolding nth tcp_families names_of registry contains
seventh = refl

pub rank_of-multi : family_rank "multisplit" ≡ 6
unfolding family_rank place_of tcp_families names_of registry contains
rank_of-multi = refl

rank-multi : (name : String) → family_rank name ≡ 6 → (name == "multisplit") ≡ true
unfolding family_rank
rank-multi name e = elim (Option-cases (place_of name tcp_families)) [
  | inl missing ↦ absurd (ground (arith, e, missing))
  | inr (place, found) ↦
      let at : place ≡ 6 = ground (arith, e, found) in
      let there : nth 6 tcp_families ≡ some name =
        subst (λ k. nth k tcp_families ≡ some name) at
          (place_of-nth name tcp_families place found) in
      (==_iff name "multisplit").1 (some-injective name "multisplit" (sym there ∙ seventh))
]

-- Behind the family in the order, no item is of the family.
later-other :
    (item : StrategyItem) → 7 ≤ family_rank (classify_strategy_family item) → is_multi item ≡ false
later-other item l = elim (Bool-cases (is_multi item)) [
  | inr other ↦ other
  | inl multi ↦ absurd (
      omega (
        arith,
        l,
        rank_of-multi,
        ap family_rank ((==_iff (classify_strategy_family item) "multisplit").0 multi),
      ))
]

pub gather_family-behind :
    (site : Site) (fam : String) (items : List StrategyItem) (g : Gathered)
    → fam ≡ "multisplit"
    → Ordered IsBefore items
    → All (λ x. 6 ≤ family_rank (classify_strategy_family x)) items
    → All (λ x. is_multi x ≡ false) (gather_family site fam items g).1
unfolding gather_family
gather_family-behind site fam [] g m o h = tt
gather_family-behind site fam (item ∷ rest) g m o h =
    if_split {A = Gathered × List StrategyItem} (λ x. All (λ y. is_multi y ≡ false) x.1)
      (classify_strategy_family item == fam) _ _
      (λ same. gather_family-behind site fam rest (gather_one site item g) m o.1 h.1)
      (λ other.
        let not_it : is_multi item ≡ false =
          subst (λ f. (classify_strategy_family item == f) ≡ false) m other in
        let above : 7 ≤ family_rank (classify_strategy_family item) =
          ground (arith, h.0, rank-multi (classify_strategy_family item), not_it) in
        (
          not_it,
          All-map_to (IsBefore item) (λ y. is_multi y ≡ false)
              (λ y l. later-other y (omega (arith, above, l))) rest o.0,
        ))

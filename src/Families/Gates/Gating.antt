-- ===== src/Families/Gates/Gating.antt =====
-- The gate of the family `multisplit` in src/blockchecks/engine/family_needs.py.
use mathlib.Core.Path.{subst}
use mathlib.Core.Option.{some-injective}
use blockcheck_s.Prelude.{
  ℕ, zero, suc, ◌≤◌, Bool, true, false, String, Option, some, List, [], ◌∷◌, string_eq, ◌==◌, ◌≡◌,
  refl, sym, ◌∙◌, ap, arith, if_both, if_split, ==_iff, ◌⊎◌, inl, inr,
}
use blockcheck_s.Prelude.Lists.{All, length, list_split}
use blockcheck_s.Job.{StrategyItem}
use blockcheck_s.Families.{classify_strategy_family, sort_by_family, family_rank}
use blockcheck_s.Families.Sorting.{Ordered}
use blockcheck_s.Families.Classes.{IsBefore, sort_by_family-Ordered}
use blockcheck_s.Families.Gates.{
  FamilyNeedTracker, Site, Run, Gathered, report, look, finish_family, skip_family, skip_over,
  gather_family, any_in, test_items, family_round, run_families, new_run, run_tcp_with_family_gates,
}
use blockcheck_s.Families.Gates.Closing.{
  is_multi, closes, Allowed, IsOpen, All-map_to, finish_family-other, InLoop, AfterLoop, IsGathered,
  test_items-AfterLoop,
}
use blockcheck_s.Families.Gates.Gathering.{
  IsRest, gather_family-Gathers, gather_family-IsRest, skip_over-IsRest, rank_of-multi,
  gather_family-behind,
}
use blockcheck_s.Families.Gates.Totals.{run_tcp_with_family_gates-Ends}

-- Before a round: the results so far, the items that are left in their order, and the gate, which is
-- closed as soon as the family passed, and then none of its items is left.
abbrev Invariant : Run → List StrategyItem → Type 0
Invariant r items =
    Ordered Allowed r.results
    × Ordered IsBefore items
    × (IsOpen r ⊎ (r.tracker.need_multisplit ≡ 0 × All (λ x. is_multi x ≡ false) items))

module _ (site : Site) (gates : (site.scan_level == "full") ≡ false) where
  skipped_other :
      (t : FamilyNeedTracker) (fam : String)
      → skip_family t fam site.scan_level ≡ true
      → (fam == "multisplit") ≡ false
  unfolding skip_family
  skipped_other t fam e =
      let is : (fam == "fake_hostfake") ≡ true = ground (arith, e, gates) in
      subst (λ f. (f == "multisplit") ≡ false) (sym ((==_iff fam "fake_hostfake").0 is)) refl

  -- A round that adds no result and finishes a family that is not `multisplit`, or that had no gate.
  unchanged :
      (r after : Run) (items left : List StrategyItem) (fam : String)
      → after.results ≡ r.results
      → ((fam == "multisplit") ≡ false → after.tracker.need_multisplit ≡ r.tracker.need_multisplit)
      → (All (λ x. is_multi x ≡ false) items → (fam == "multisplit") ≡ false)
      → IsRest items left
      → Invariant r items
      → Invariant after left
  unchanged r after items left fam same need other rest (o, b, h) = (
    subst (Ordered Allowed) (sym same) o,
    rest.order IsBefore b,
    elim h [
      | inl free ↦ inl (subst (All (λ t. closes t ≡ false)) (sym same) free)
      | inr (closed, none_left) ↦
          inr (need (other none_left) ∙ closed, rest.all (λ x. is_multi x ≡ false) none_left)
    ],
  )

  family_round-Invariant :
      (item : StrategyItem) (rest : List StrategyItem) (r : Run)
      → Invariant r (item ∷ rest)
      → let x = family_round site (classify_strategy_family item) (item ∷ rest) r in
        Invariant x.0 x.2
  unfolding family_round
  family_round-Invariant item rest r h =
      let fam = classify_strategy_family item in
      let items = item ∷ rest in
      let start : Gathered = record { run = r; family_items = []; family_skipped_labels = [] } in
      let (over, left_over) = skip_over fam items r in
      let (over_rest, over_tracker, over_results) = skip_over-IsRest fam items r in
      let (g, left) = gather_family site fam items start in
      let got =
        gather_family-Gathers site gates r.tracker r.results fam items start
          (record { tracker = refl; results = refl; items = tt }) in
      let known = any_in site.working_tcp g.family_skipped_labels in
      let behind = gather_family-IsRest site gates fam items start in
      let P : Run × Bool × List StrategyItem → Type 0 = λ x. Invariant x.0 x.2 in
      let T = All (λ x. is_multi x ≡ false) left in
      let none_multi : All (λ x. is_multi x ≡ false) items → (fam == "multisplit") ≡ false =
        λ k. k.0 in
      let enters : InLoop T fam false g.run = (
        subst (Ordered Allowed) (sym got.results) h.0,
        elim h.2 [
          | inl free ↦ inl (subst (All (λ t. closes t ≡ false)) (sym got.results) free)
          | inr (closed, none_left) ↦ inr (
              inr (
                none_left.0,
                ap (λ (t : FamilyNeedTracker). t.need_multisplit) got.tracker ∙ closed,
                behind.all (λ x. is_multi x ≡ false) none_left,
              ))
        ],
      ) in
      let leaves : (x : Run) → AfterLoop T fam x → Invariant x left = λ x k. (
        k.0,
        behind.order IsBefore h.1,
        elim k.1 [
          | inl free ↦ inl free
          | inr (closed, inr known) ↦ inr (closed, known)
          | inr (closed, inl multi) ↦
              let it : fam ≡ "multisplit" = (==_iff fam "multisplit").0 multi in
              let at : 6 ≤ family_rank fam = omega (arith, rank_of-multi, ap family_rank it) in
              inr (
                closed,
                gather_family-behind site fam items start it h.1 (
                  at,
                  All-map_to (IsBefore item) (λ y. 6 ≤ family_rank (classify_strategy_family y))
                      (λ y l. omega (arith, at, l)) rest h.1.0,
                ),
              )
        ],
      ) in
      let tests =
        test_items-AfterLoop T fam site g.family_items false g.run
          (subst (λ t. All (IsGathered fam t) g.family_items) (sym got.tracker) got.items) enters in
      if_split P (skip_family r.tracker fam site.scan_level) _ _
        (λ skips.
          unchanged r (report (record over { tracker = finish_family over.tracker fam false }))
            items left_over fam over_results
            (λ other.
              finish_family-other over.tracker fam false other
              ∙ ap (λ (t : FamilyNeedTracker). t.need_multisplit) over_tracker)
            none_multi over_rest h)
        (λ on.
          list_split P g.family_items _ _
            (λ e.
              unchanged r
                (report (record g.run { tracker = finish_family g.run.tracker fam known })) items
                left fam got.results
                (λ other.
                  finish_family-other g.run.tracker fam known other
                  ∙ ap (λ (t : FamilyNeedTracker). t.need_multisplit) got.tracker)
                none_multi behind h)
            (λ y ys e. leaves (test_items site fam g.family_items false g.run).0 tests))

  run_families-Ordered :
      (f : ℕ) (items : List StrategyItem) (r s : Run)
      → run_families f site items r ≡ some s
      → Invariant r items
      → Ordered Allowed s.results
  unfolding run_families
  run_families-Ordered zero [] r s e h =
      subst (λ (x : Run). Ordered Allowed x.results) (some-injective r s e) h.0
  run_families-Ordered (suc f) [] r s e h =
      subst (λ (x : Run). Ordered Allowed x.results) (some-injective r s e) h.0
  run_families-Ordered zero (item ∷ rest) r s e h = absurd (cc e)
  run_families-Ordered (suc f) (item ∷ rest) r s e h =
      let x = family_round site (classify_strategy_family item) (item ∷ rest) (look r) in
      let k = family_round-Invariant item rest (look r) h in
      let P : Option Run → Type 0 = λ o. o ≡ some s → Ordered Allowed s.results in
      if_both P (site.stopped r.looks) _ _
        (λ z. subst (λ (y : Run). Ordered Allowed y.results) (some-injective (look r) s z) h.0)
        (if_both P x.1 _ _
          (λ z. subst (λ (y : Run). Ordered Allowed y.results) (some-injective x.0 s z) k.0)
          (λ z. run_families-Ordered f x.2 x.0 s z k))
        e

  -- At every level but `full` the run ends, and once a strategy of the family `multisplit` has passed,
  -- no strategy of another family that names multisplit or multidisorder is tested.
  pub run_tcp_with_family_gates-Ordered :
      (items : List StrategyItem)
      → (s : Run) × (run_tcp_with_family_gates site items ≡ some s) × Ordered Allowed s.results
  unfolding run_tcp_with_family_gates
  run_tcp_with_family_gates-Ordered items =
      let (s, e, h) = run_tcp_with_family_gates-Ends site items in
      (
        s,
        e,
        run_families-Ordered (length (sort_by_family items)) (sort_by_family items) new_run s e
            (tt, (sort_by_family-Ordered items).0, inl tt),
      )

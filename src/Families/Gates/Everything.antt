-- ===== src/Families/Gates/Everything.antt =====
-- `run_tcp_with_family_gates` of src/blockchecks/engine/family_needs.py at the level `full`, where no
-- family gates another one.
use mathlib.Core.List.{append_assoc, append-nil}
use mathlib.Core.Option.{some-injective}
use blockcheck_s.Prelude.{
  ℕ, zero, suc, ◌%◌, Bool, true, false, ◌&&◌, ◌||◌, String, Option, none, some, List, [], ◌∷◌, ◌++◌,
  string_eq, eqb, ◌==◌, if◌then◌else◌, ◌≡◌, refl, sym, ◌∙◌, ap, arith, if_both, if_split,
}
use blockcheck_s.Prelude.Lists.{length, length-append, list_split}
use blockcheck_s.Job.{StrategyItem}
use blockcheck_s.Families.{classify_strategy_family, sort_by_family}
use blockcheck_s.Families.Gates.{
  Site, Tested, Run, Gathered, report, look, skip_family, skip_strategy, gather_one, gather_family,
  add_result, test_items, family_round, run_families, new_run, run_tcp_with_family_gates,
}
use blockcheck_s.Families.Gates.Counts.{IsUncut}
use blockcheck_s.Families.Gates.Totals.{length-sorted, run_tcp_with_family_gates-Ends}

-- The reference: every item in turn, without families, from the n-th call on.
abbrev pub test_all : Site → ℕ → List StrategyItem → List Tested
test_all site n [] = []
test_all site n (item ∷ rest) =
    record { item = item; success = site.test n item } ∷ test_all site (suc n) rest

length-test_all :
    (site : Site) (n : ℕ) (items : List StrategyItem)
    → length (test_all site n items) ≡ length items
length-test_all site n [] = refl
length-test_all site n (item ∷ rest) = omega (arith, length-test_all site (suc n) rest)

-- The level is `full`, nothing was done before, and no look finds the stop event.
pub record IsFull (site : Site) : Type 0 where
  pub full : (site.scan_level == "full") ≡ true
  pub fresh : site.resume_check ≡ none
  pub uncut : IsUncut site

-- The results so far, and then those of the items that are left.
abbrev to_come : Site → Run → List StrategyItem → List Tested
to_come site r items = r.results ++ test_all site (length r.results) items

module _ (site : Site) (full : IsFull site) where
  gather_one-full :
      (item : StrategyItem) (g : Gathered)
      → gather_one site item g ≡ record g { family_items = g.family_items ++ item ∷ [] }
  unfolding gather_one skip_strategy
  gather_one-full item g = ground (arith, full.full, full.fresh)

  -- Every item of the family is gathered.
  gather_family-full :
      (fam : String) (items : List StrategyItem) (g : Gathered)
      → let x = gather_family site fam items g in
        (x.0.run ≡ g.run) × (x.0.family_items ++ x.1 ≡ g.family_items ++ items)
  unfolding gather_family
  gather_family-full fam [] g = (refl, refl)
  gather_family-full fam (item ∷ rest) g =
      let (same, kept) = gather_family-full fam rest (gather_one site item g) in
      let e = gather_one-full item g in
      if_both {A = Gathered × List StrategyItem}
        (λ x. (x.0.run ≡ g.run) × (x.0.family_items ++ x.1 ≡ g.family_items ++ item ∷ rest))
        (classify_strategy_family item == fam) _ _
        (
          same ∙ ap (λ (y : Gathered). y.run) e,
          kept
              ∙ ap (λ (y : Gathered). y.family_items ++ rest) e
              ∙ append_assoc g.family_items (item ∷ []) rest,
        )
        (refl, refl)

  add_result-to_come :
      (item : StrategyItem) (rest : List StrategyItem) (r : Run)
      → to_come site (add_result site item r) rest ≡ to_come site r (item ∷ rest)
  unfolding add_result
  add_result-to_come item rest r =
      let t : Tested = record { item = item; success = site.test (length r.results) item } in
      ap (λ n. (r.results ++ t ∷ []) ++ test_all site n rest)
        (length-append r.results (t ∷ []) ∙ omega arith)
      ∙ append_assoc r.results (t ∷ []) (test_all site (suc (length r.results)) rest)

  test_items-to_come :
      (fam : String) (items left : List StrategyItem) (had_pass : Bool) (r : Run)
      → let x = test_items site fam items had_pass r in
        (to_come site x.0 left ≡ to_come site r (items ++ left)) × (x.1 ≡ false)
  unfolding test_items
  test_items-to_come fam [] left had_pass r = (refl, refl)
  test_items-to_come fam (item ∷ rest) left had_pass r =
      let success = site.test (length r.results) item in
      let tested = add_result site item (look r) in
      let after = if eqb (tested.done % 50) 0 then report tested else tested in
      let P : Run × Bool → Type 0 =
        λ x. (to_come site x.0 left ≡ to_come site r (item ∷ rest ++ left)) × (x.1 ≡ false) in
      let same : to_come site after (rest ++ left) ≡ to_come site tested (rest ++ left) =
        if_both (λ (x : Run). to_come site x (rest ++ left) ≡ to_come site tested (rest ++ left))
          (eqb (tested.done % 50) 0) (report tested) tested refl refl in
      if_split P (site.stopped r.looks) _ _
        (λ stop. absurd (cc (stop, full.uncut.unstopped r.looks)))
        (λ go.
          if_split P (success && site.scan_level == "single") _ _
            (λ cut. absurd (ground (arith, cut, full.uncut.not_single)))
            (λ on.
              let (more, goes_on) = test_items-to_come fam rest left (had_pass || success) after in
              (more ∙ same ∙ add_result-to_come item (rest ++ left) (look r), goes_on)))

  family_round-to_come :
      (fam : String) (items : List StrategyItem) (r : Run)
      → let x = family_round site fam items r in
        (to_come site x.0 x.2 ≡ to_come site r items) × (x.1 ≡ false)
  unfolding family_round skip_family
  family_round-to_come fam items r =
      let start : Gathered = record { run = r; family_items = []; family_skipped_labels = [] } in
      let (same, kept) = gather_family-full fam items start in
      let (g, rest) = gather_family site fam items start in
      let P : Run × Bool × List StrategyItem → Type 0 =
        λ x. (to_come site x.0 x.2 ≡ to_come site r items) × (x.1 ≡ false) in
      let tests : to_come site g.run (g.family_items ++ rest) ≡ to_come site r items =
        ap (λ y. to_come site y (g.family_items ++ rest)) same ∙ ap (to_come site r) kept in
      if_split P (skip_family r.tracker fam site.scan_level) _ _
        (λ skips. absurd (ground (arith, skips, full.full)))
        (λ on.
          list_split P g.family_items _ _
            (λ e. (ap (λ xs. to_come site g.run (xs ++ rest)) (sym e) ∙ tests, refl))
            (λ y ys e.
              let (more, goes_on) = test_items-to_come fam g.family_items rest false g.run in
              (more ∙ tests, goes_on)))

  run_families-to_come :
      (f : ℕ) (items : List StrategyItem) (r s : Run)
      → run_families f site items r ≡ some s
      → s.results ≡ to_come site r items
  unfolding run_families
  run_families-to_come zero [] r s e =
      ap (λ (x : Run). x.results) (some-injective s r (sym e)) ∙ sym (append-nil r.results)
  run_families-to_come (suc f) [] r s e =
      ap (λ (x : Run). x.results) (some-injective s r (sym e)) ∙ sym (append-nil r.results)
  run_families-to_come zero (item ∷ rest) r s e = absurd (cc e)
  run_families-to_come (suc f) (item ∷ rest) r s e =
      let x = family_round site (classify_strategy_family item) (item ∷ rest) (look r) in
      let (kept, goes_on) =
        family_round-to_come (classify_strategy_family item) (item ∷ rest) (look r) in
      let P : Option Run → Type 0 = λ o. o ≡ some s → s.results ≡ to_come site r (item ∷ rest) in
      if_split P (site.stopped r.looks) _ _
        (λ stop. absurd (cc (stop, full.uncut.unstopped r.looks)))
        (λ go.
          if_split P x.1 _ _ (λ returns. absurd (cc (returns, goes_on)))
            (λ on run. run_families-to_come f x.2 x.0 s run ∙ kept))
        e

  -- At the level `full`, if nothing was done before and no look finds the stop event set, the run ends,
  -- its results are those of the items in the order of `sort_by_family`, each tested once, and no item
  -- was skipped.
  pub run_tcp_with_family_gates-full :
      (items : List StrategyItem)
      → (s : Run) × (run_tcp_with_family_gates site items ≡ some s)
        × (s.results ≡ test_all site 0 (sort_by_family items))
        × (s.skipped ≡ 0)
  unfolding run_tcp_with_family_gates
  run_tcp_with_family_gates-full items =
      let (s, is, h) = run_tcp_with_family_gates-Ends site items in
      let results =
        run_families-to_come (length (sort_by_family items)) (sort_by_family items) new_run s is in
      (
        s,
        is,
        results,
        omega (
          arith,
          h.counted.done,
          h.all full.uncut,
          ap length results,
          length-test_all site 0 (sort_by_family items),
          length-sorted items,
        ),
      )

-- ===== src/Families/Gates/Counts.antt =====
-- What the loops of `run_tcp_with_family_gates` of src/blockchecks/engine/family_needs.py count.
use blockcheck_s.Prelude.{
  ℕ, suc, ◌+◌, ◌≤◌, ◌%◌, Bool, false, ◌&&◌, ◌||◌, String, List, [], ◌∷◌, string_eq, eqb, ◌==◌,
  if◌then◌else◌, ◌≡◌, refl, arith, if_both, if_split,
}
use blockcheck_s.Prelude.Lists.{weigh, weigh-append, length, length-append}
use blockcheck_s.Job.{StrategyItem}
use blockcheck_s.Families.{classify_strategy_family}
use blockcheck_s.Families.Gates.{
  Site, Tested, Run, Gathered, report, skip_one, look, skip_strategy, skip_over, was_done,
  gather_one, gather_family, add_result, test_items,
}

abbrev pub one_if : Bool → ℕ
one_if b = if b then 1 else 0

-- Each item that is done was skipped or has a result, and those that passed are the successful results.
pub record IsCounted (r : Run) : Type 0 where
  pub done : r.done ≡ r.skipped + length r.results
  pub passed : r.passed ≡ weigh (λ t. one_if t.success) r.results

-- What a loop over the items does: it takes some, and counts them.
abbrev pub Takes : Run → List StrategyItem → Run → List StrategyItem → Type 0
Takes r items after left =
    IsCounted after
    × (after.done + length left ≡ r.done + length items)
    × (length left ≤ length items)

pub skip_one-IsCounted : (r : Run) → IsCounted r → IsCounted (skip_one r)
skip_one-IsCounted r h = record { done = omega (arith, h.done); passed = h.passed }

pub skip_over-Takes :
    (fam : String) (items : List StrategyItem) (r : Run)
    → IsCounted r
    → Takes r items (skip_over fam items r).0 (skip_over fam items r).1
unfolding skip_over
skip_over-Takes fam [] r h = (h, refl, omega arith)
skip_over-Takes fam (item ∷ rest) r h =
    let (c, d, l) = skip_over-Takes fam rest (skip_one r) (skip_one-IsCounted r h) in
    if_both {A = Run × List StrategyItem} (λ x. Takes r (item ∷ rest) x.0 x.1)
      (classify_strategy_family item == fam) _ _ (c, omega (arith, d), omega (arith, l))
      (h, refl, omega arith)

-- The same of the items that a family gives, which are not done yet.
abbrev pub Gathers : Run → ℕ → List StrategyItem → Gathered → List StrategyItem → Type 0
Gathers r n items g left =
    IsCounted g.run
    × (g.run.done + length g.family_items + length left ≡ r.done + n + length items)
    × (length left ≤ length items)

pub gather_one-counts :
    (site : Site) (item : StrategyItem) (g : Gathered)
    → IsCounted g.run
    → IsCounted (gather_one site item g).run
      × ((gather_one site item g).run.done + length (gather_one site item g).family_items
          ≡ suc (g.run.done + length g.family_items))
unfolding gather_one
gather_one-counts site item g h =
    let P : Gathered → Type 0 = λ x.
      IsCounted x.run
      × (x.run.done + length x.family_items ≡ suc (g.run.done + length g.family_items)) in
    let c = skip_one-IsCounted g.run h in
    if_both P (was_done site item.label) _ _ (c, omega arith)
      (if_both P (skip_strategy g.run.tracker item site.scan_level) _ _ (c, omega arith)
        (h, omega (arith, length-append g.family_items (item ∷ []))))

pub gather_family-Gathers :
    (site : Site) (fam : String) (items : List StrategyItem) (g : Gathered)
    → IsCounted g.run
    → Gathers g.run
        (length g.family_items)
        items
        (gather_family site fam items g).0
        (gather_family site fam items g).1
unfolding gather_family
gather_family-Gathers site fam [] g h = (h, omega arith, omega arith)
gather_family-Gathers site fam (item ∷ rest) g h =
    let (c, d) = gather_one-counts site item g h in
    let (c', d', l) = gather_family-Gathers site fam rest (gather_one site item g) c in
    if_both {A = Gathered × List StrategyItem}
      (λ x. Gathers g.run (length g.family_items) (item ∷ rest) x.0 x.1)
      (classify_strategy_family item == fam) _ _ (c', omega (arith, d, d'), omega (arith, l))
      (h, omega arith, omega arith)

-- No look finds the stop event, and the level is not `single`.
pub record IsUncut (site : Site) : Type 0 where
  pub unstopped : (n : ℕ) → site.stopped n ≡ false
  pub not_single : (site.scan_level == "single") ≡ false

-- What the tests of a family are: at most `n` of them, and all of them if nothing cuts them short.
abbrev pub Tests : Site → Run → ℕ → Run × Bool → Type 0
Tests site r n x =
    IsCounted x.0
    × (x.0.done ≤ r.done + n)
    × (IsUncut site → (x.0.done ≡ r.done + n) × (x.1 ≡ false))

add_result-IsCounted :
    (site : Site) (item : StrategyItem) (r : Run) → IsCounted r → IsCounted (add_result site item r)
unfolding add_result
add_result-IsCounted site item r h =
    let t : Tested = record { item = item; success = site.test (length r.results) item } in
    record {
      done = omega (arith, h.done, length-append r.results (t ∷ []));
      passed = ground (arith, h.passed, weigh-append (λ x. one_if x.success) r.results (t ∷ []));
    }

add_result-done :
    (site : Site) (item : StrategyItem) (r : Run) → (add_result site item r).done ≡ suc r.done
unfolding add_result
add_result-done site item r = refl

pub test_items-Tests :
    (site : Site) (fam : String) (items : List StrategyItem) (had_pass : Bool) (r : Run)
    → IsCounted r
    → Tests site r (length items) (test_items site fam items had_pass r)
unfolding test_items
test_items-Tests site fam [] had_pass r h =
    (record { done = h.done; passed = h.passed }, omega arith, λ u. (omega arith, refl))
test_items-Tests site fam (item ∷ rest) had_pass r h =
    let success = site.test (length r.results) item in
    let tested = add_result site item (look r) in
    let after = if eqb (tested.done % 50) 0 then report tested else tested in
    let c : IsCounted tested =
      add_result-IsCounted site item (look r) (record { done = h.done; passed = h.passed }) in
    let d : tested.done ≡ suc r.done = add_result-done site item (look r) in
    let (ca, da) : IsCounted after × (after.done ≡ suc r.done) =
      if_both (λ x. IsCounted x × (x.done ≡ suc r.done)) (eqb (tested.done % 50) 0) (report tested)
        tested (record { done = c.done; passed = c.passed }, d) (c, d) in
    let (cm, lm, um) = test_items-Tests site fam rest (had_pass || success) after ca in
    if_split {A = Run × Bool} (Tests site r (suc (length rest))) (site.stopped r.looks) _ _
      (λ stop. (
        record { done = h.done; passed = h.passed },
        omega arith,
        λ u. absurd (cc (stop, u.unstopped r.looks)),
      ))
      (λ go.
        if_split {A = Run × Bool} (Tests site r (suc (length rest)))
          (success && site.scan_level == "single") _ _
          (λ cut. (
            record { done = c.done; passed = c.passed },
            omega (arith, d),
            λ u. ground (arith, cut, u.not_single),
          ))
          (λ on. (cm, omega (arith, lm, da), λ u. (omega (arith, (um u).0, da), (um u).1))))

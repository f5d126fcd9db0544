-- ===== src/Families/Gates/Totals.antt =====
-- What `run_tcp_with_family_gates` of src/blockchecks/engine/family_needs.py counts, and that it ends.
use blockcheck_s.Prelude.{
  ℕ, zero, suc, ◌+◌, ◌≤◌, Bool, false, Option, some, List, [], ◌∷◌, string_eq, ◌==◌, ◌≡◌, refl, sym,
  ◌∙◌, ap, arith, if_both, if_split, ==_refl,
}
use blockcheck_s.Prelude.Lists.{weigh, length, list_split}
use blockcheck_s.Job.{StrategyItem}
use blockcheck_s.Families.{classify_strategy_family, sort_by_family, sorts_before}
use blockcheck_s.Families.Sorting.{sorted-weigh}
use blockcheck_s.Families.Gates.{
  Site, Run, Gathered, skip_one, look, skip_family, skip_over, gather_one, gather_family,
  family_round, run_families, new_run, run_tcp_with_family_gates,
}
use blockcheck_s.Families.Gates.Counts.{
  IsCounted, skip_one-IsCounted, skip_over-Takes, gather_one-counts, gather_family-Gathers, IsUncut,
  test_items-Tests,
}

skip_over-first :
    (item : StrategyItem) (rest : List StrategyItem) (r : Run)
    → IsCounted r
    → length (skip_over (classify_strategy_family item) (item ∷ rest) r).1 ≤ length rest
unfolding skip_over
skip_over-first item rest r h =
    if_split {A = Run × List StrategyItem} (λ x. length x.1 ≤ length rest)
      (classify_strategy_family item == classify_strategy_family item) _ _
      (λ same.
        (skip_over-Takes (classify_strategy_family item) rest (skip_one r)
          (skip_one-IsCounted r h)).2)
      (λ other. absurd (cc (other, ==_refl (classify_strategy_family item))))

gather_family-first :
    (site : Site) (item : StrategyItem) (rest : List StrategyItem) (g : Gathered)
    → IsCounted g.run
    → length (gather_family site (classify_strategy_family item) (item ∷ rest) g).1 ≤ length rest
unfolding gather_family
gather_family-first site item rest g h =
    if_split {A = Gathered × List StrategyItem} (λ x. length x.1 ≤ length rest)
      (classify_strategy_family item == classify_strategy_family item) _ _
      (λ same.
        (gather_family-Gathers site (classify_strategy_family item) rest (gather_one site item g)
          (gather_one-counts site item g h).0).2)
      (λ other. absurd (cc (other, ==_refl (classify_strategy_family item))))

-- What one round does with `item ∷ rest`: it leaves fewer items, and counts those that it took.
abbrev Round : Site → Run → ℕ → Run × Bool × List StrategyItem → Type 0
Round site r n x =
    IsCounted x.0
    × (x.0.done + length x.2 ≤ r.done + suc n)
    × (length x.2 ≤ n)
    × (IsUncut site → (x.0.done + length x.2 ≡ r.done + suc n) × (x.1 ≡ false))

family_round-Round :
    (site : Site) (item : StrategyItem) (rest : List StrategyItem) (r : Run)
    → IsCounted r
    → Round site r (length rest) (family_round site (classify_strategy_family item) (item ∷ rest) r)
unfolding family_round
family_round-Round site item rest r h =
    let fam = classify_strategy_family item in
    let start : Gathered = record { run = r; family_items = []; family_skipped_labels = [] } in
    let (co, dv, lo) = skip_over-Takes fam (item ∷ rest) r h in
    let (cg, dg, lg) = gather_family-Gathers site fam (item ∷ rest) start h in
    let left_over = skip_over-first item rest r h in
    let left = gather_family-first site item rest start h in
    let g = (gather_family site fam (item ∷ rest) start).0 in
    let (ct, dt, ut) = test_items-Tests site fam g.family_items false g.run cg in
    if_both {A = Run × Bool × List StrategyItem} (Round site r (length rest))
      (skip_family r.tracker fam site.scan_level) _ _
      (record { done = co.done; passed = co.passed }, omega (arith, dv), left_over, λ u. (dv, refl))
      (list_split {B = Run × Bool × List StrategyItem} (Round site r (length rest)) g.family_items _
        _
        (λ e.
          let z : length g.family_items ≡ 0 = ap length e in
          (
            record { done = cg.done; passed = cg.passed },
            omega (arith, dg, z),
            left,
            λ u. (omega (arith, dg, z), refl),
          ))
        (λ y ys e. (ct, omega (arith, dg, dt), left, λ u. (omega (arith, dg, (ut u).0), (ut u).1))))

-- What a run of at most `n` more items ends with.
pub record IsRunOf (site : Site) (n : ℕ) (s : Run) : Type 0 where
  pub counted : IsCounted s
  pub at_most : s.done ≤ n
  pub all : IsUncut site → s.done ≡ n

-- A run that ends, and how.
abbrev pub Ends : Site → ℕ → Option Run → Type 0
Ends site n o = (s : Run) × (o ≡ some s) × IsRunOf site n s

widen :
    (site : Site) (m n : ℕ) (o : Option Run)
    → m ≤ n
    → (IsUncut site → m ≡ n)
    → Ends site m o
    → Ends site n o
widen site m n o l e (s, is, h) = (
  s,
  is,
  record { counted = h.counted; at_most = omega (arith, h.at_most); all = λ u. h.all u ∙ e u },
)

run_families-Ends :
    (f : ℕ) (site : Site) (items : List StrategyItem) (r : Run)
    → IsCounted r
    → length items ≤ f
    → Ends site (r.done + length items) (run_families f site items r)
unfolding run_families
run_families-Ends zero site [] r h l =
    (r, refl, record { counted = h; at_most = omega arith; all = λ u. omega arith })
run_families-Ends (suc f) site [] r h l =
    (r, refl, record { counted = h; at_most = omega arith; all = λ u. omega arith })
run_families-Ends zero site (item ∷ rest) r h l = absurd (omega (arith, l))
run_families-Ends (suc f) site (item ∷ rest) r h l =
    let looked : IsCounted (look r) = record { done = h.done; passed = h.passed } in
    let x = family_round site (classify_strategy_family item) (item ∷ rest) (look r) in
    let (c, d, less, u) = family_round-Round site item rest (look r) looked in
    let P = Ends site (r.done + suc (length rest)) in
    if_split P (site.stopped r.looks) _ _
      (λ stop. (
        look r,
        refl,
        record {
          counted = looked;
          at_most = omega arith;
          all = λ un. absurd (cc (stop, un.unstopped r.looks));
        },
      ))
      (λ go.
        if_split P x.1 _ _
          (λ returns. (
            x.0,
            refl,
            record {
              counted = c;
              at_most = omega (arith, d);
              all = λ un. absurd (cc (returns, (u un).1));
            },
          ))
          (λ on.
            widen site (x.0.done + length x.2) _ _ d (λ un. (u un).0)
              (run_families-Ends f site x.2 x.0 c (omega (arith, less, l)))))

length-weigh : (xs : List StrategyItem) → weigh (λ x. 1) xs ≡ length xs
length-weigh [] = refl
length-weigh (x ∷ xs) = omega (arith, length-weigh xs)

pub length-sorted : (items : List StrategyItem) → length (sort_by_family items) ≡ length items
unfolding sort_by_family
length-sorted items =
    sym (length-weigh (sort_by_family items))
    ∙ sorted-weigh sorts_before (λ x. 1) items
    ∙ length-weigh items

-- The run ends. It has then done at most the items that it was given, each of which was skipped or has
-- one result; `passed` is the number of results that succeeded. If no look finds the stop event set,
-- and the level is not `single`, it has done them all.
pub run_tcp_with_family_gates-Ends :
    (site : Site) (items : List StrategyItem)
    → Ends site (length items) (run_tcp_with_family_gates site items)
unfolding run_tcp_with_family_gates sort_by_family
run_tcp_with_family_gates-Ends site items =
    let same : length (sort_by_family items) ≡ length items = length-sorted items in
    widen site (0 + length (sort_by_family items)) _ _ (omega (arith, same))
      (λ u. omega (arith, same))
      (run_families-Ends (length (sort_by_family items)) site (sort_by_family items) new_run
        (record { done = refl; passed = refl }) (omega arith))

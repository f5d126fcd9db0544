-- ===== src/Families/Gates.antt =====
-- `FamilyNeedTracker` and `run_tcp_with_family_gates` of src/blockchecks/engine/family_needs.py. The
-- runner, the stop event and the stores that are asked are arguments. Children: Counts and
-- Totals are what it counts and that it ends, Everything is a run at the level `full`; Closing,
-- Gathering and Gating are the gate of one family.
pub mod Counts
pub mod Totals
pub mod Everything
pub mod Closing
pub mod Gathering
pub mod Gating
use blockcheck_s.Prelude.{
  ℕ, zero, suc, ◌+◌, ◌%◌, Bool, true, false, ◌&&◌, ◌||◌, not, String, Option, none, some, List, [],
  ◌∷◌, ◌++◌, string_eq, eqb, ◌==◌, if◌then◌else◌,
}
use blockcheck_s.Prelude.Text.{contains_text}
use blockcheck_s.Prelude.Dict.{contains}
use blockcheck_s.Prelude.Lists.{length}
use blockcheck_s.Job.{StrategyItem}
use blockcheck_s.Families.{classify_strategy_family, sort_by_family}

-- The flags of the tracker; `need_fake` is never read.
pub record FamilyNeedTracker : Type 0 where
  pub need_fake : ℕ
  pub need_hostfakesplit : ℕ
  pub need_multisplit : ℕ
  pub need_multidisorder : ℕ
  pub need_fakedsplit : ℕ
  pub need_fakeddisorder : ℕ

abbrev pub new_tracker : FamilyNeedTracker
new_tracker = record {
  need_fake = 1;
  need_hostfakesplit = 1;
  need_multisplit = 1;
  need_multidisorder = 1;
  need_fakedsplit = 1;
  need_fakeddisorder = 1;
}

unfoldable pub finish_family : FamilyNeedTracker → String → Bool → FamilyNeedTracker
finish_family t family had_pass =
    let val = if had_pass then 0 else 1 in
    if family == "fake"
    then record t { need_fake = val }
    else if family == "hostfake"
    then record t { need_hostfakesplit = val }
    else if family == "multisplit"
    then record t { need_multisplit = val; need_multidisorder = val }
    else if family == "faked" || family == "fakedsplit" || family == "fakeddisorder"
    then record t { need_fakedsplit = val; need_fakeddisorder = val }
    else t

unfoldable pub skip_family : FamilyNeedTracker → String → String → Bool
skip_family t family scan_level =
    if scan_level == "full" then false else family == "fake_hostfake" && eqb t.need_hostfakesplit 0

unfoldable pub skip_strategy : FamilyNeedTracker → StrategyItem → String → Bool
skip_strategy t item scan_level =
    if scan_level == "full"
    then false
    else eqb t.need_multisplit 0
        && (contains_text item.strategy "multisplit" || contains_text item.strategy "multidisorder")
      || eqb t.need_fakedsplit 0 && contains_text item.strategy "fakedsplit"
      || eqb t.need_fakeddisorder 0 && contains_text item.strategy "fakeddisorder"

-- What a run asks. `test` is `runner.test_tcp` in the n-th call, and whether it succeeds; `stopped` is
-- the n-th look at the stop event; `resume_check` is `none` where none was given; `working_tcp` is what
-- the store answered, empty where it was not asked.
pub record Site : Type 0 where
  pub scan_level : String
  pub test : ℕ → StrategyItem → Bool
  pub stopped : ℕ → Bool
  pub resume_check : Option (String → Bool)
  pub working_tcp : List String

-- Of a TcpTestResult, the item that was tested and `success`.
pub record Tested : Type 0 where
  pub item : StrategyItem
  pub success : Bool

-- The variables of the run, with the number of looks at the stop event, and the reports of progress.
pub record Run : Type 0 where
  pub tracker : FamilyNeedTracker
  pub results : List Tested
  pub done : ℕ
  pub skipped : ℕ
  pub passed : ℕ
  pub looks : ℕ
  pub reports : List (ℕ × ℕ × ℕ)

abbrev pub report : Run → Run
report r = record r { reports = r.reports ++ (r.done, r.skipped, r.passed) ∷ [] }

abbrev pub skip_one : Run → Run
skip_one r = record r { skipped = suc r.skipped; done = suc r.done }

abbrev pub look : Run → Run
look r = record r { looks = suc r.looks }

-- The loop over a family that is skipped: what it leaves of the items.
unfoldable pub skip_over : String → List StrategyItem → Run → Run × List StrategyItem
skip_over fam [] r = (r, [])
skip_over fam (item ∷ rest) r =
    let more = skip_over fam rest (skip_one r) in
    if classify_strategy_family item == fam then more else (r, item ∷ rest)

-- The items of a family that are to be tested, and the labels of those that were done before.
pub record Gathered : Type 0 where
  pub run : Run
  pub family_items : List StrategyItem
  pub family_skipped_labels : List String

abbrev pub was_done : Site → String → Bool
was_done site label = elim site.resume_check [ none ↦ false | some check ↦ check label ]

unfoldable pub gather_one : Site → StrategyItem → Gathered → Gathered
gather_one site item g =
    if was_done site item.label
    then record g {
      run = skip_one g.run;
      family_skipped_labels = g.family_skipped_labels ++ item.label ∷ [];
    }
    else if skip_strategy g.run.tracker item site.scan_level
    then record g { run = skip_one g.run }
    else record g { family_items = g.family_items ++ item ∷ [] }

unfoldable pub gather_family :
    Site → String → List StrategyItem → Gathered → Gathered × List StrategyItem
gather_family site fam [] g = (g, [])
gather_family site fam (item ∷ rest) g =
    let more = gather_family site fam rest (gather_one site item g) in
    if classify_strategy_family item == fam then more else (g, item ∷ rest)

-- Whether a label of a list is in another one.
unfoldable pub any_in : List String → List String → Bool
any_in working [] = false
any_in working (label ∷ rest) = contains working label || any_in working rest

-- One test, up to the report of every fiftieth one.
unfoldable pub add_result : Site → StrategyItem → Run → Run
add_result site item r =
    let success = site.test (length r.results) item in
    record r {
      results = r.results ++ record { item = item; success = success } ∷ [];
      done = suc r.done;
      passed = if success then suc r.passed else r.passed;
    }

-- The loop over the tests of a family: with `true` the whole run returns.
unfoldable pub test_items : Site → String → List StrategyItem → Bool → Run → Run × Bool
test_items site fam [] had_pass r =
    (report (record r { tracker = finish_family r.tracker fam had_pass }), false)
test_items site fam (item ∷ rest) had_pass r =
    let stop = site.stopped r.looks in
    let success = site.test (length r.results) item in
    let tested = add_result site item (look r) in
    let after = if eqb (tested.done % 50) 0 then report tested else tested in
    let more = test_items site fam rest (had_pass || success) after in
    if stop
    then (report (record (look r) { tracker = finish_family r.tracker fam had_pass }), false)
    else if success && site.scan_level == "single"
    then (report (record tested { tracker = finish_family r.tracker fam true }), true)
    else more

-- One round of the outer loop, of the family of the first item: what it leaves, and whether the run
-- returns.
unfoldable pub family_round :
    Site → String → List StrategyItem → Run → Run × Bool × List StrategyItem
family_round site fam items r =
    let (over, left) = skip_over fam items r in
    let (g, rest) =
      gather_family site fam items
        (record { run = r; family_items = []; family_skipped_labels = [] }) in
    let known = any_in site.working_tcp g.family_skipped_labels in
    let (after, returns) = test_items site fam g.family_items false g.run in
    if skip_family r.tracker fam site.scan_level
    then (report (record over { tracker = finish_family over.tracker fam false }), false, left)
    else elim g.family_items [
      | [] ↦
          (report (record g.run { tracker = finish_family g.run.tracker fam known }), false, rest)
      | _ ∷ _ ↦ (after, returns, rest)
    ]

-- The outer loop; `none` where the fuel is not enough.
unfoldable pub run_families : ℕ → Site → List StrategyItem → Run → Option Run
run_families f site [] r = some r
run_families zero site (item ∷ items) r = none
run_families (suc f) site (item ∷ items) r =
    let stop = site.stopped r.looks in
    let (after, returns, rest) =
      family_round site (classify_strategy_family item) (item ∷ items) (look r) in
    let more = run_families f site rest after in
    if stop then some (look r) else if returns then some after else more

abbrev pub new_run : Run
new_run = record {
  tracker = new_tracker;
  results = [];
  done = 0;
  skipped = 0;
  passed = 0;
  looks = 0;
  reports = [];
}

-- One round takes at least one item.
unfoldable pub run_tcp_with_family_gates : Site → List StrategyItem → Option Run
run_tcp_with_family_gates site items =
    let sorted_items = sort_by_family items in
    run_families (length sorted_items) site sorted_items new_run

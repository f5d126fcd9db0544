-- ===== src/Families/Tests.antt =====
-- The families of strategies at small inputs.
use blockcheck_s.Prelude.{
  ℕ, zero, suc, ◌+◌, Bool, true, false, String, Option, none, some, List, [], ◌∷◌, map, string_eq,
  ◌==◌, ◌≡◌, refl,
}
use blockcheck_s.Prelude.Text.{lower, contains_text, remove_prefix}
use blockcheck_s.Prelude.Dict.{contains}
use blockcheck_s.Job.{StrategyItem}
use blockcheck_s.Families.{
  registry, names_of, tcp_families, place_of, family_rank, hits_of, hits_in, triage_from, triage,
  classify_by_strategy, classify_strategy_family, sorts_before, sort_by_family,
}
use blockcheck_s.Families.Sorting.{Ordered, insert_sorted, sorted}
use blockcheck_s.Families.Classes.{IsClass, classify_strategy_family-IsClass}
use blockcheck_s.Families.Gates.{
  Site, Run, Tested, run_tcp_with_family_gates, run_families, family_round, test_items,
  gather_family, gather_one, skip_over, add_result, any_in, finish_family, skip_family,
  skip_strategy, new_run,
}
use blockcheck_s.Families.Gates.Totals.{Ends, run_tcp_with_family_gates-Ends}
use blockcheck_s.Families.Gates.Closing.{Allowed}
use blockcheck_s.Families.Gates.Gating.{run_tcp_with_family_gates-Ordered}
use blockcheck_s.Families.Gates.Everything.{IsFull, test_all, run_tcp_with_family_gates-full}

abbrev item : String → String → StrategyItem
item label strategy = record {
  label = label;
  strategy = strategy;
  is_config = false;
  protocol = "tls12";
}

ranks :
    (family_rank "fake" ≡ 0)
    × (family_rank "multisplit" ≡ 6)
    × (family_rank "tcp_ipfrag" ≡ 20)
    × (family_rank "other" ≡ 999)
unfolding family_rank place_of tcp_families names_of registry contains
ranks = (refl, refl, refl, refl)

tags : triage "fakedsplit" ≡ "silent_drop" ∷ "rst_at_sni" ∷ []
unfolding triage_from contains
tags = refl

-- The prefix of a family that has a shorter one for its own beginning.
classes :
    map {B = String} classify_strategy_family (
      item "std_fake_hostfake_1" "x"
      ∷ item "STD_FAKE_1" "x"
      ∷ item "a" "--multidisorder=1"
      ∷ item "std_oob" "x"
      ∷ [])
    ≡ "fake_hostfake" ∷ "fake" ∷ "multisplit" ∷ "oob" ∷ []
unfolding classify_strategy_family lower sorted insert_sorted hits_in hits_of registry remove_prefix
    classify_by_strategy contains_text tcp_families names_of contains
    blockcheck_s.Prelude.Text.before
classes = refl

classify_strategy_family-IsClass_example :
    IsClass (lower "std_fh_1") (lower "x") (classify_strategy_family (item "std_fh_1" "x"))
classify_strategy_family-IsClass_example = classify_strategy_family-IsClass (item "std_fh_1" "x")

abbrev items : List StrategyItem
items =
    item "std_ffds_1" "fakedsplit"
    ∷ item "std_fdd_1" "fakeddisorder"
    ∷ item "std_fds_1" "fakedsplit"
    ∷ []

abbrev site : String → Site
site level = record {
  scan_level = level;
  test = λ n i. true;
  stopped = λ n. false;
  resume_check = none;
  working_tcp = [];
}

run_tcp_with_family_gates-Ends_example :
    Ends (site "fast") 3 (run_tcp_with_family_gates (site "fast") items)
run_tcp_with_family_gates-Ends_example = run_tcp_with_family_gates-Ends (site "fast") items

plain : IsFull (site "full")
plain = record {
  full = refl;
  fresh = refl;
  uncut = record { unstopped = λ n. refl; not_single = refl };
}

run_tcp_with_family_gates-full_example :
    (s : Run) × (run_tcp_with_family_gates (site "full") items ≡ some s)
    × (s.results ≡ test_all (site "full") 0 (sort_by_family items))
    × (s.skipped ≡ 0)
run_tcp_with_family_gates-full_example = run_tcp_with_family_gates-full (site "full") plain items

-- The second item is not tested.
abbrev gated_items : List StrategyItem
gated_items = item "std_split_1" "multisplit" ∷ item "std_mdis_1" "multidisorder" ∷ []

run_tcp_with_family_gates-Ordered_example :
    (s : Run) × (run_tcp_with_family_gates (site "fast") gated_items ≡ some s)
    × Ordered Allowed s.results
run_tcp_with_family_gates-Ordered_example =
    run_tcp_with_family_gates-Ordered (site "fast") refl gated_items

-- A family that passed is needed again when the family that it gates was skipped as a whole.
needed_again :
    (finish_family
      (finish_family new_run.tracker "fakedsplit" true)
      "fakeddisorder"
      false).need_fakedsplit
    ≡ 1
unfolding finish_family
needed_again = refl

-- So the last item is tested, though `fakedsplit` passed and every strategy of that kind is to be skipped.
abbrev tested_labels : Option Run → List String
tested_labels none = []
tested_labels (some s) = map {B = String} (λ (t : Tested). t.item.label) s.results

tested_again :
    tested_labels (run_tcp_with_family_gates (site "fast") items) ≡ "std_fds_1" ∷ "std_ffds_1" ∷ []
unfolding run_tcp_with_family_gates run_families family_round test_items gather_family gather_one
    skip_over add_result any_in finish_family skip_family skip_strategy sort_by_family sorts_before
    family_rank place_of tcp_families names_of classify_strategy_family lower sorted insert_sorted
    hits_in hits_of registry remove_prefix contains_text contains
tested_again = refl

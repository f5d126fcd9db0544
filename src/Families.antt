-- ===== src/Families.antt =====
-- The families of strategies: the registry of src/blockchecks/engine/family_spec.py, and
-- `classify_strategy_family` and `sort_by_family` of src/blockchecks/engine/family_needs.py. The axis
-- tables of a family are left out. Children: Sorting is `sorted`, Classes is what a class and the order
-- are, Gates is the run by families.
pub mod Sorting
pub mod Classes
pub mod Gates
mod Tests
use Prim.Native.String.{len}
use blockcheck_s.Prelude.{
  ℕ, suc, Bool, true, false, ◌&&◌, ◌||◌, String, Option, none, some, List, [], ◌∷◌, ◌++◌, map,
  string_eq, eqb, ltb, ◌==◌, if◌then◌else◌,
}
use blockcheck_s.Prelude.Text.{
  append, text_less, lower, contains_text, remove_prefix, starts, before,
}
use blockcheck_s.Prelude.Dict.{contains}
use blockcheck_s.Job.{StrategyItem}
use blockcheck_s.Families.Sorting.{sorted}

pub record FamilySpec : Type 0 where
  pub name : String
  pub protocols : List String
  pub expander : String
  pub label_prefixes : List String
  pub aliases : List String
  pub triage_tags : List String
  pub default_tcp : Bool

abbrev pub triage_to_families : List (String × List String)
triage_to_families =
    ("stall", "wssize" ∷ [])
    ∷ ("silent_drop", "fake" ∷ "hostfake" ∷ "fakedsplit" ∷ "multisplit" ∷ "multi_fake" ∷ [])
    ∷ ("rst_at_sni", "multisplit" ∷ "fakedsplit" ∷ "multidisorder" ∷ [])
    ∷ ("quic_drop", "quic_fake" ∷ "quic_ipfrag" ∷ [])
    ∷ ("udp_blocked", "udp_discord" ∷ [])
    ∷ []

unfoldable pub triage_from : String → List (String × List String) → List String
triage_from name [] = []
triage_from name ((tag, families) ∷ rest) =
    let more = triage_from name rest in if contains families name then tag ∷ more else more

-- `_triage`
abbrev pub triage : String → List String
triage name = triage_from name triage_to_families

-- `_f` with one protocol
abbrev pub family : String → String → List String → List String → List String → Bool → FamilySpec
family name protocol prefixes aliases tags default_tcp = record {
  name = name;
  protocols = protocol ∷ [];
  expander = append "_fam_" name;
  label_prefixes = prefixes;
  aliases = aliases;
  triage_tags = tags;
  default_tcp = default_tcp;
}

unfoldable pub registry : List FamilySpec
registry =
    family "fake" "tcp" ("std_fake_" ∷ "fake_" ∷ []) [] (triage "fake") true
    ∷ family "rst_fake" "tcp" ("std_rst_" ∷ []) [] [] false
    ∷ family "synack" "tcp" ("std_synack" ∷ []) [] [] false
    ∷ family "geneva_fool" "tcp" ("std_gva_" ∷ []) [] [] false
    ∷ family "wssize" "tcp" ("std_wssize" ∷ []) [] (triage "wssize") false
    ∷ family "hostfake" "tcp" ("std_hf_" ∷ "std_hostfake_" ∷ "hostfake_" ∷ []) []
        (triage "hostfake") true
    ∷ family "multisplit" "tcp" ("std_split_" ∷ "std_multisplit_" ∷ "multisplit_" ∷ []) []
        (triage "multisplit") true
    ∷ family "multidisorder" "tcp" ("std_mdis_" ∷ "multidisorder_" ∷ []) [] (triage "multidisorder")
        false
    ∷ family "syndata" "tcp" ("std_syn_" ∷ "std_syndata_" ∷ []) [] [] false
    ∷ family "tcpseg" "tcp" ("std_tcpseg_" ∷ []) [] [] false
    ∷ family "oob" "tcp" ("std_oob_" ∷ []) [] [] false
    ∷ family "multi_fake" "tcp" ("std_multi_fake_" ∷ "std_multi_" ∷ "fake_multi_" ∷ []) []
        (triage "multi_fake") false
    ∷ family "triple_fake" "tcp" ("std_triple_" ∷ []) [] [] false
    ∷ family "fake_multisplit" "tcp" ("std_fms_" ∷ "fake_multisplit_" ∷ []) [] [] false
    ∷ family "fake_multidisorder" "tcp" ("std_fmd_" ∷ "fake_multidisorder_" ∷ []) [] [] false
    ∷ family "fake_multisplit_hostfake" "tcp" ("std_fmsh_" ∷ "fake_multisplit_hostfake_" ∷ []) [] []
        false
    ∷ family "fake_hostfake" "tcp" ("std_fake_hostfake_" ∷ "std_fh_" ∷ "fake_hostfake_" ∷ []) [] []
        false
    ∷ family "fakedsplit" "tcp" ("std_fds_" ∷ "fakedsplit_" ∷ []) [] (triage "fakedsplit") true
    ∷ family "fakeddisorder" "tcp" ("std_fdd_" ∷ "fakeddisorder_" ∷ []) [] [] false
    ∷ family "fake_fakedsplit" "tcp" ("std_ffds_" ∷ "fake_fakedsplit_" ∷ []) [] [] false
    ∷ family "tcp_ipfrag" "tcp" ("std_tcp_fake_ipfrag_" ∷ "std_tcp_ipfrag_" ∷ [])
        ("ipfrag_tcp" ∷ []) [] false
    ∷ family "http_simple" "http" [] [] [] false
    ∷ family "http_fake" "http" [] [] [] false
    ∷ family "http_tls_dual" "http" [] [] [] false
    ∷ family "udp_discord" "udp_voice" [] [] (triage "udp_discord") false
    ∷ family "udp_multiblob" "udp_voice" [] [] [] false
    ∷ family "quic_fake" "quic" [] [] (triage "quic_fake") false
    ∷ family "quic_gv" "quic" [] [] [] false
    ∷ family "quic_ipfrag" "quic" [] ("ipfrag_udp" ∷ []) (triage "quic_ipfrag") false
    ∷ family "udp_quic" "quic" [] [] [] false
    ∷ family "udp_game" "udp_game" [] [] [] false
    ∷ []

-- `[s.name for s in REGISTRY if protocol in s.protocols]`
unfoldable pub names_of : String → List FamilySpec → List String
names_of protocol [] = []
names_of protocol (s ∷ rest) =
    let more = names_of protocol rest in
    if contains s.protocols protocol then s.name ∷ more else more

unfoldable pub tcp_families : List String
tcp_families = names_of "tcp" registry

-- The place of a name in a list.
unfoldable pub place_of : String → List String → Option ℕ
place_of name [] = none
place_of name (n ∷ rest) =
    let more = place_of name rest in
    if n == name then some 0 else elim more [ none ↦ none | some place ↦ some (suc place) ]

-- `FAMILY_RANK.get(name, 999)`
unfoldable pub family_rank : String → ℕ
family_rank name = elim (place_of name tcp_families) [ none ↦ 999 | some place ↦ place ]

-- The prefixes of one family that the label starts with, each with the family.
unfoldable pub hits_of : String → String → List String → List (String × String)
hits_of label name [] = []
hits_of label name (prefix ∷ rest) =
    let more = hits_of label name rest in
    if starts label prefix then (prefix, name) ∷ more else more

-- Those of all the families. A family that has no prefix gives none.
unfoldable pub hits_in : String → List FamilySpec → List (String × String)
hits_in label [] = []
hits_in label (s ∷ rest) = hits_of label s.name s.label_prefixes ++ hits_in label rest

-- `sorted(hits, key=len of the prefix, reverse=True)`, which keeps the order of equal ones
abbrev pub longer : String × String → String × String → Bool
longer a b = ltb (len b.0) (len a.0)

-- `label.split("_")[1]`, of a label that begins with `std_`
abbrev pub second_part : String → Option String
second_part label = elim (remove_prefix "std_" label) [
  | none ↦ none
  | some rest ↦ some (before 95 rest)
]

-- Without a hit: by what the strategy holds, and then by the label's second part.
unfoldable pub classify_by_strategy : String → String → String
classify_by_strategy label strat =
    if contains_text strat "hostfakesplit"
    then "hostfake"
    else if contains_text strat "multisplit" || contains_text strat "multidisorder"
    then "multisplit"
    else if contains_text strat "fakedsplit" || contains_text strat "fakeddisorder"
    then "faked"
    else elim (second_part label) [
      | none ↦ "other"
      | some part ↦ if contains tcp_families part then part else "other"
    ]

unfoldable pub classify_strategy_family : StrategyItem → String
classify_strategy_family item = elim (sorted longer (hits_in (lower item.label) registry)) [
  | [] ↦ classify_by_strategy (lower item.label) (lower item.strategy)
  | hit ∷ rest ↦ hit.1
]

-- The order of the pairs of a family's rank and a label.
unfoldable pub sorts_before : StrategyItem → StrategyItem → Bool
sorts_before a b =
    let m = family_rank (classify_strategy_family a) in
    let n = family_rank (classify_strategy_family b) in
    ltb m n || eqb m n && text_less a.label b.label

unfoldable pub sort_by_family : List StrategyItem → List StrategyItem
sort_by_family items = sorted sorts_before items

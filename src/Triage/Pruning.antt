-- ===== src/Triage/Pruning.antt =====
-- What src/blockchecks/engine/family_registry.py leaves out of the axes and of the strategies for a profile.
-- `Patterns` is what the regular expressions find, and `_static_numeric_split` of
-- src/blockchecks/engine/generators/families/_helpers.py.
use blockcheck_s.Prelude.{
  ℕ, Bool, true, false, ◌&&◌, ◌||◌, not, String, Option, none, some, List, [], ◌∷◌, string_eq, ltb,
  ◌==◌, if◌then◌else◌,
}
use blockcheck_s.Prelude.Int.{ℤ, pos, negsuc}
use blockcheck_s.Prelude.Lists.{is_nil}
use blockcheck_s.Prelude.Text.{append, starts, contains_text}
use blockcheck_s.Prelude.Dict.{contains}
use blockcheck_s.Job.{StrategyItem}
use blockcheck_s.Triage.{TriageProfile, bypassable}
use blockcheck_s.Triage.Tags.{dead_fooling_tokens}
use blockcheck_s.Triage.Blobs.{filter_blob_aliases}

pub record Patterns : Type 0 where
  -- `strategy_fooling_keys`
  pub fooling_keys : String → List String
  -- `_IP_TTL_RE.search`
  pub ip_ttl : String → Option ℕ
  pub blobs : String → List String
  pub static_numeric_split : String → Bool
  -- `re.search(r"pos=1(?:,|$)", …)`
  pub pos_one : String → Bool

-- `keys & dead`
unfoldable pub overlap : List String → List String → Bool
overlap [] dead = false
overlap (k ∷ ks) dead = contains dead k || overlap ks dead

-- `ttl < hops`
abbrev pub below : ℕ → ℤ → Bool
below ttl (pos hops) = ltb ttl hops
below ttl (negsuc hops) = false

-- The rule of `_ttl_ok` for the number that it finds.
unfoldable pub ttl_fits : Option ℤ → Option ℤ → ℕ → Bool
ttl_fits dpi server ttl =
    (elim dpi [ none ↦ true | some hops ↦ not (below ttl hops) ])
    && (elim server [ none ↦ true | some hops ↦ below ttl hops ])

-- A value of an axis of TTLs: a text that is no number, or a number.
pub data Ttl : Type 0 where
  word : String → Ttl
  number : ℤ → Ttl

-- `_ttl_axis_ok`
unfoldable pub ttl_axis_ok : Option ℤ → Option ℤ → Ttl → Bool
ttl_axis_ok dpi server (word s) = true
ttl_axis_ok dpi server (number (pos n)) = ttl_fits dpi server n
ttl_axis_ok dpi server (number (negsuc n)) = true

-- `_pos_ok`
unfoldable pub pos_ok : String → String → Bool
pos_ok position mode =
    if mode == "first_byte"
    then not (contains_text position "sniext")
    else if mode == "sni_marker"
    then not (position == "1") && not (starts position "1,")
    else true

-- `[x for x in xs if test(x)]`
unfoldable pub keep_if : {A : Type 0} → (A → Bool) → List A → List A
keep_if test [] = []
keep_if test (x ∷ xs) = let more = keep_if test xs in if test x then x ∷ more else more

-- `_ttl_ok`
unfoldable pub ttl_ok : Patterns → String → Option ℤ → Option ℤ → Bool
ttl_ok re strategy dpi server = elim (re.ip_ttl strategy) [
  | none ↦ true
  | some ttl ↦ ttl_fits dpi server ttl
]

module _ {Other : Type 0} where
  -- `filter_fooling_values`
  unfoldable pub filter_fooling_values :
      Patterns → List String → Option (TriageProfile Other) → List String
  filter_fooling_values re fools profile =
      let dead = dead_fooling_tokens profile in
      keep_if (λ f. not (overlap (re.fooling_keys (append ":" f)) dead)) fools

  -- `filter_ttl_values`
  unfoldable pub filter_ttl_values : List Ttl → Option (TriageProfile Other) → String → List Ttl
  filter_ttl_values ttls none level = ttls
  filter_ttl_values ttls (some p) level =
      if level == "full" then ttls else keep_if (ttl_axis_ok p.dpi_hops p.server_hops) ttls

  -- `filter_split_positions`, of the positions as texts
  unfoldable pub filter_split_positions :
      List String → Option (TriageProfile Other) → String → List String
  filter_split_positions positions none level = positions
  filter_split_positions positions (some p) level =
      if level == "full" || p.split_mode == ""
      then positions
      else keep_if (λ x. pos_ok x p.split_mode) positions

  -- `_blob_ok`
  unfoldable pub blob_ok : Patterns → TriageProfile Other → String → String → Bool
  blob_ok re p strategy protocol =
      let aliases = re.blobs strategy in
      if is_nil aliases || is_nil p.viable_blobs
      then true
      else not (is_nil (filter_blob_aliases [] (some aliases) (some p) protocol))

  -- `_item_survives`
  unfoldable pub item_survives :
      Patterns
      → TriageProfile Other
      → List String
      → Option ℤ
      → Option ℤ
      → String
      → StrategyItem
      → Bool
  item_survives re p dead dpi server split_mode item =
      let protocol = if item.protocol == "" then "tcp" else item.protocol in
      if overlap (re.fooling_keys item.strategy) dead
      then false
      else if not (ttl_ok re item.strategy dpi server)
      then false
      else if not (blob_ok re p item.strategy protocol)
      then false
      else if p.requires_postquantum_awareness && re.static_numeric_split item.strategy
      then false
      else if split_mode == "first_byte" && contains_text item.strategy "sniext"
      then false
      else not (split_mode == "sni_marker" && re.pos_one item.strategy)

  -- The test that `prune_items_by_triage` makes of an item.
  unfoldable pub survives : Patterns → TriageProfile Other → String → StrategyItem → Bool
  survives re p level item =
      let full = level == "full" in
      item_survives re p (dead_fooling_tokens (some p)) (if full then none else p.dpi_hops)
        (if full then none else p.server_hops) (if full then "" else p.split_mode) item

  -- `prune_items_by_triage`
  unfoldable pub prune_items_by_triage :
      Patterns → List StrategyItem → Option (TriageProfile Other) → String → List StrategyItem
  prune_items_by_triage re items none level = items
  prune_items_by_triage re items (some p) level =
      if bypassable p then keep_if (survives re p level) items else []

module _ {Other : Type 0} (re : Patterns) (p : TriageProfile Other) where
  abbrev prune_test : String → List StrategyItem → List StrategyItem
  prune_test level items = keep_if (survives re p level) items

  abbrev pub prune : String → List StrategyItem → List StrategyItem
  prune level items = prune_items_by_triage re items (some p) level

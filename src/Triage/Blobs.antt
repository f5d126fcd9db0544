-- ===== src/Triage/Blobs.antt =====
-- The classes of blobs of src/blockchecks/engine/blob_filter.py, and which aliases a profile keeps.
-- `all_aliases` are the keys of `BLOB_ALIAS_MAP`. The selection of Lua files is left out.
use blockcheck_s.Prelude.{
  Bool, true, ◌&&◌, ◌||◌, String, Option, none, some, List, [], ◌∷◌, string_eq, ◌==◌, if◌then◌else◌,
  ◌≡◌, refl, arith, ==_iff, if_both,
}
use blockcheck_s.Prelude.Lists.{is_nil}
use blockcheck_s.Prelude.Text.{starts}
use blockcheck_s.Prelude.Dict.{lookup, contains}
use blockcheck_s.Triage.{TriageProfile}

-- `BLOB_CLASS_MAP`
abbrev pub blob_class_map : List (String × String)
blob_class_map =
    ("stun", "stun")
    ∷ ("stun2", "stun")
    ∷ ("google", "tls_clienthello")
    ∷ ("tls_clienthello", "tls_clienthello")
    ∷ ("max_ru", "tls_clienthello")
    ∷ ("4pda", "tls_clienthello")
    ∷ ("tls_vk", "tls_clienthello")
    ∷ ("tls_5ka", "tls_clienthello")
    ∷ ("tls_funpay", "tls_clienthello")
    ∷ ("tls_rzd", "tls_clienthello")
    ∷ ("discord_udp", "discord_udp")
    ∷ ("discord_ipdisc", "discord_udp")
    ∷ ("game_udp", "game_udp")
    ∷ ("quic_google", "quic")
    ∷ ("quic_initial", "quic")
    ∷ ("quic_dbank", "quic")
    ∷ ("quic_4pda", "quic")
    ∷ ("quic_vk", "quic")
    ∷ ("quic_tencent", "quic")
    ∷ ("quic_steam", "quic")
    ∷ ("quic_5ka", "quic")
    ∷ ("quic_rutube", "quic")
    ∷ ("quic_funpay", "quic")
    ∷ ("quic_cloudflare", "quic")
    ∷ ("quic_alfabank", "quic")
    ∷ ("quic_gv_kyber", "quic")
    ∷ ("quic_gv_kyber_1", "quic")
    ∷ ("quic_gv_kyber_2", "quic")
    ∷ ("quic_gv_rr2", "quic")
    ∷ []

-- `blob_class`
unfoldable pub blob_class : String → String
blob_class alias = elim (lookup alias blob_class_map) [
  | some c ↦ c
  | none ↦
      if starts alias "quic_"
      then "quic"
      else if starts alias "tls_"
      then "tls_clienthello"
      else "other"
]

unfoldable pub aliases_from : String → List (String × String) → List String
aliases_from cls [] = []
aliases_from cls ((a, c) ∷ rest) =
    let more = aliases_from cls rest in if c == cls || a == cls then a ∷ more else more

-- `aliases_for_class`
abbrev pub aliases_for_class : String → List String
aliases_for_class cls = aliases_from cls blob_class_map

abbrev pub is_udp : String → Bool
is_udp protocol = contains ("udp_voice" ∷ "udp_game" ∷ "quic" ∷ []) protocol

-- Whether `filter_blob_aliases` keeps an alias.
unfoldable pub is_kept : List String → String → String → Bool
is_kept allowed protocol a =
    contains allowed a
    || contains allowed (blob_class a)
    || (is_udp protocol && contains ("discord_udp" ∷ "game_udp" ∷ "quic" ∷ []) (blob_class a))

unfoldable pub kept_aliases : List String → String → List String → List String
kept_aliases allowed protocol [] = []
kept_aliases allowed protocol (a ∷ rest) =
    let more = kept_aliases allowed protocol rest in
    if is_kept allowed protocol a then a ∷ more else more

-- `filter_blob_aliases`
unfoldable pub filter_blob_aliases :
    {Other : Type 0}
    → List String
    → Option (List String)
    → Option (TriageProfile Other)
    → String
    → List String
filter_blob_aliases all_aliases aliases profile protocol =
    let pool : List String = elim aliases [ none ↦ all_aliases | some given ↦ given ] in
    elim profile [
      | none ↦ pool
      | some p ↦ if is_nil p.viable_blobs then pool else kept_aliases p.viable_blobs protocol pool
    ]

-- Whether the map says of its aliases what `blob_class` says.
unfoldable all_classed : List (String × String) → Bool
all_classed [] = true
all_classed ((a, c) ∷ rest) = blob_class a == c && all_classed rest

blob_class_map-classed : all_classed blob_class_map ≡ true
unfolding all_classed blob_class lookup
blob_class_map-classed = refl

contains-kept_aliases :
    (allowed : List String) (protocol a : String) (pool : List String)
    → contains (kept_aliases allowed protocol pool) a
      ≡ (contains pool a && is_kept allowed protocol a)
unfolding kept_aliases contains
contains-kept_aliases allowed protocol a [] = refl
contains-kept_aliases allowed protocol a (b ∷ rest) =
    ground (arith, contains-kept_aliases allowed protocol a rest, ==_iff b a)

aliases_from-is_kept :
    (allowed : List String) (cls protocol a : String) (m : List (String × String))
    → all_classed m ≡ true
    → contains allowed cls ≡ true
    → contains (aliases_from cls m) a ≡ true
    → is_kept allowed protocol a ≡ true
unfolding aliases_from is_kept contains all_classed
aliases_from-is_kept allowed cls protocol a [] h k e = absurd (cc e)
aliases_from-is_kept allowed cls protocol a ((b, c) ∷ rest) h k e = ground (
  arith,
  h,
  k,
  e,
  aliases_from-is_kept allowed cls protocol a rest,
  ==_iff (blob_class b) c,
  ==_iff c cls,
  ==_iff b cls,
  ==_iff b a,
)

-- An alias of a class that a profile finds viable, and that is in the pool, passes the filter of
-- the profile, for any protocol.
pub filter_blob_aliases-aliases_for_class :
    {Other : Type 0} (all_aliases pool : List String) (p : TriageProfile Other)
    (protocol cls a : String)
    → contains p.viable_blobs cls ≡ true
    → contains pool a ≡ true
    → contains (aliases_for_class cls) a ≡ true
    → contains (filter_blob_aliases all_aliases (some pool) (some p) protocol) a ≡ true
unfolding filter_blob_aliases
filter_blob_aliases-aliases_for_class all_aliases pool p protocol cls a viable here e =
    let kept =
      aliases_from-is_kept p.viable_blobs cls protocol a blob_class_map blob_class_map-classed
        viable e in
    if_both (λ xs. contains xs a ≡ true) (is_nil p.viable_blobs) pool _ here
      (ground (arith, contains-kept_aliases p.viable_blobs protocol a pool, here, kept))

-- ===== src/Fanout.antt =====
-- src/blockchecks/engine/tcp_fanout.py: domains are put in batches that one curl call can probe.
pub mod Partition
mod Tests
use blockcheck_s.Prelude.{
  ℕ, ◌-◌, Bool, true, false, ◌&&◌, not, String, Option, none, some, List, [], ◌∷◌, ◌++◌, string_eq,
  ltb, eqb, ◌==◌, if◌then◌else◌, map, ◌≡◌, refl,
}
use blockcheck_s.Prelude.Int.{ℤ, at_least, leb_ℤ}
use blockcheck_s.Prelude.Lists.{length, chunks, take}
use blockcheck_s.Prelude.Text.{append, contains_text, lower, before, show, join}

abbrev pub googlevideo_range_size : ℕ
googlevideo_range_size = 17408

pub record CurlProfile : Type 0 where
  pub use_ech : Bool
  pub headers_extra : String
  pub special : Bool

-- The only marker is `googlevideo`.
unfoldable pub is_special_domain : String → Bool
unfolding contains_text lower before
is_special_domain domain = contains_text (before b'/' (lower domain)) "googlevideo"

abbrev pub range_header : String
range_header = ", \"Range\": \"bytes=0-17407\""

unfoldable pub curl_profile : String → String → Bool → CurlProfile
curl_profile domain protocol disable_ech =
    let is_http = protocol == "http" in
    let is_gv = not is_http && is_special_domain domain in
    record {
      use_ech = not is_http && (not disable_ech && not is_gv);
      headers_extra = if is_gv then range_header else "";
      special = is_gv;
    }

-- The header that the source builds from the size of the range.
range_header_lem :
    append ", \"Range\": \"bytes=0-" (append (show (googlevideo_range_size - 1)) "\"")
    ≡ range_header
unfolding show
range_header_lem = refl

abbrev pub bool_eq : Bool → Bool → Bool
bool_eq true b = b
bool_eq false b = not b

unfoldable pub profiles_compatible : CurlProfile → CurlProfile → Bool
profiles_compatible a b =
    bool_eq a.use_ech b.use_ech
    && (a.headers_extra == b.headers_extra && bool_eq a.special b.special)

-- The variables of the loop of `fanout_batches`.
pub record Buckets : Type 0 where
  pub batches : List (List String)
  pub bucket : List String
  pub bucket_profile : Option CurlProfile

-- `flush`
unfoldable pub flush : ℕ → Buckets → Buckets
flush n s = elim s.bucket [
  | [] ↦ s
  | domain ∷ rest ↦ record {
    batches = s.batches ++ chunks n (domain ∷ rest);
    bucket = [];
    bucket_profile = none;
  }
]

-- The rest of the loop's body for a domain that is not special.
unfoldable pub put : ℕ → String → CurlProfile → Buckets → Option CurlProfile → Buckets
unfolding flush
put n domain prof s none = record s { bucket = domain ∷ []; bucket_profile = some prof }
put n domain prof s (some held) =
    if profiles_compatible held prof
    then record s { bucket = s.bucket ++ domain ∷ [] }
    else record (flush n s) { bucket = domain ∷ []; bucket_profile = some prof }

module _ (n : ℕ) (protocol : String) (disable_ech : Bool) where
  unfoldable pub fanout_step : Buckets → String → Buckets
  unfolding put
  fanout_step s domain =
      let prof = curl_profile domain protocol disable_ech in
      if prof.special
      then (let s' = flush n s in record s' { batches = s'.batches ++ (domain ∷ []) ∷ [] })
      else put n domain prof s s.bucket_profile

  unfoldable pub fanout_loop : Buckets → List String → Buckets
  fanout_loop s [] = s
  fanout_loop s (domain ∷ domains) = fanout_loop (fanout_step s domain) domains

unfoldable pub fanout_batches : List String → String → Bool → ℤ → List (List String)
fanout_batches domains protocol disable_ech curl_parallel =
    let n = at_least 1 curl_parallel in
    let start : Buckets = record { batches = []; bucket = []; bucket_profile = none } in
    if eqb n 1
    then map (λ d. d ∷ []) domains
    else (flush n (fanout_loop n protocol disable_ech start domains)).batches

unfoldable pub special_domains : String → List String → List String
special_domains protocol [] = []
special_domains protocol (d ∷ ds) =
    let rest = special_domains protocol ds in
    if (curl_profile d protocol false).special then d ∷ rest else rest

unfoldable pub special_reason : List String → String
special_reason special = append "special domains run solo: " (
    append (join ", " (take 3 special))
      (if ltb 3 (length special) then append " +" (show (length special - 3)) else ""))

unfoldable pub fanout_allowed : ℤ → Bool → List String → String → Bool × String
unfolding special_domains special_reason
fanout_allowed curl_parallel use_family_gates domains protocol =
    if leb_ℤ curl_parallel 1
    then (false, "curl_parallel<=1")
    else if use_family_gates
    then (false, "family_gates active (per-domain need_* chain)")
    else elim (special_domains protocol domains) [
      | [] ↦ (true, "")
      | d ∷ ds ↦ (true, special_reason (d ∷ ds))
    ]

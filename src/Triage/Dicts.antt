-- ===== src/Triage/Dicts.antt =====
-- `to_dict` and `from_dict` of src/blockchecks/engine/triage.py. What `from_dict` reads has, at each key that
-- is there, a value of the type that `to_dict` gives it, or None; `cached` are the phases `http_…` that
-- `FailPhase._missing_` has made in the process so far.
use blockcheck_s.Prelude.{
  ℕ, Bool, true, false, not, String, Option, none, some, List, [], ◌∷◌, string_eq, eqb, ◌==◌,
  if◌then◌else◌,
}
use blockcheck_s.Prelude.Int.{ℤ, pos, negsuc}
use blockcheck_s.Prelude.Lists.{is_nil}
use blockcheck_s.Prelude.Dict.{lookup}
use blockcheck_s.FailPhase.{FailPhase, value}
use blockcheck_s.Triage.{
  TriageProfile, empty_profile, requires_window_clamp, prefer_quic, bypassable,
}

-- The values of the dict.
pub data Value (Other : Type 0) : Type 0 where
  null : Value Other
  truth : Bool → Value Other
  int : ℤ → Value Other
  float : ℕ → Value Other
  text : String → Value Other
  texts : List String → Value Other
  flags : List (String × Bool) → Value Other
  labels : List (String × String) → Value Other
  reports : List (String × List (String × Other)) → Value Other
  others : List (String × Other) → Value Other

-- The members of `FailPhase` that the class declares.
abbrev pub named_phases : List FailPhase
named_phases =
    FailPhase.unknown ∷ FailPhase.other ∷ FailPhase.pass ∷ FailPhase.dns_resolve
    ∷ FailPhase.dns_tampered ∷ FailPhase.dns_sinkhole ∷ FailPhase.l4_syn_drop
    ∷ FailPhase.l4_rst_at_syn ∷ FailPhase.icmp_block ∷ FailPhase.ip_blocked
    ∷ FailPhase.tls_rst_at_sni ∷ FailPhase.tls_silent_drop_after_sni ∷ FailPhase.tls_fake_alert
    ∷ FailPhase.tls_handshake_error ∷ FailPhase.connect_timeout ∷ FailPhase.connect_refused
    ∷ FailPhase.data_stall_tls_cert ∷ FailPhase.data_stall_first_req ∷ FailPhase.data_stall_7k
    ∷ FailPhase.data_stall_16k ∷ FailPhase.data_stall_42k ∷ FailPhase.data_stall_64k_plus
    ∷ FailPhase.delayed_rst ∷ FailPhase.delayed_fin ∷ FailPhase.tls_injected_alert
    ∷ FailPhase.zero_window_stall ∷ FailPhase.h2_rst_stream ∷ FailPhase.bandwidth_throttled
    ∷ FailPhase.quic_drop ∷ FailPhase.udp_blocked ∷ FailPhase.http_redirect ∷ FailPhase.http_blocked
    ∷ []

-- `FailPhase._value2member_map_`
unfoldable pub find_phase : String → List FailPhase → Option FailPhase
find_phase s [] = none
find_phase s (p ∷ ps) = if value p == s then some p else find_phase s ps

-- `_fail_phase`, of a value from a dict
unfoldable pub phase_of : List FailPhase → String → FailPhase
phase_of cached s = elim (find_phase s named_phases) [
  | some p ↦ p
  | none ↦ elim (find_phase s cached) [ none ↦ FailPhase.unknown | some p ↦ p ]
]

abbrev pub Dict : Type 0 → Type 0
Dict Other = List (String × Value Other)

module _ {Other : Type 0} where
  abbrev optional_int : Option ℤ → Value Other
  optional_int none = null
  optional_int (some n) = int n

  abbrev optional_truth : Option Bool → Value Other
  optional_truth none = null
  optional_truth (some b) = truth b

  -- `to_dict`, where `round_1 x` is `round(x, 1)`
  unfoldable pub to_dict : (ℕ → ℕ) → TriageProfile Other → Dict Other
  to_dict round_1 p =
      ("dns_hijacked", truth p.dns_hijacked)
      ∷ ("dns_sinkhole", truth p.dns_sinkhole)
      ∷ ("unbypassable_l3", truth p.unbypassable_l3)
      ∷ ("l3_phase", text (value p.l3_phase))
      ∷ ("handshake_phase", text (value p.handshake_phase))
      ∷ ("rst_at_sni", truth p.rst_at_sni)
      ∷ ("silent_drop_after_sni", truth p.silent_drop_after_sni)
      ∷ ("stall_phase", text (value p.stall_phase))
      ∷ ("stall_at_bytes", optional_int p.stall_at_bytes)
      ∷ ("bandwidth_throttled", truth p.bandwidth_throttled)
      ∷ ("read_rate_bps", float (round_1 p.read_rate_bps))
      ∷ ("quic_drop", truth p.quic_drop)
      ∷ ("udp_blocked", truth p.udp_blocked)
      ∷ ("voice_ok", truth p.voice_ok)
      ∷ ("client_hello_len", int p.client_hello_len)
      ∷ ("is_tls_fingerprint_blocked", truth p.is_tls_fingerprint_blocked)
      ∷ ("requires_postquantum_awareness", truth p.requires_postquantum_awareness)
      ∷ ("fingerprint_pass", flags p.fingerprint_pass)
      ∷ ("requires_window_clamp", truth (requires_window_clamp p))
      ∷ ("prefer_quic", truth (prefer_quic p))
      ∷ ("bypassable", truth (bypassable p))
      ∷ ("l7_impersonate_sufficient", truth p.is_tls_fingerprint_blocked)
      ∷ ("prefer_contextual_split", truth p.requires_postquantum_awareness)
      ∷ ("domain_phases", labels p.domain_phases)
      ∷ ("domain_reports", reports p.domain_reports)
      ∷ ("viable_foolings", texts p.viable_foolings)
      ∷ ("viable_blobs", texts p.viable_blobs)
      ∷ ("split_mode", text p.split_mode)
      ∷ ("server_hops", optional_int p.server_hops)
      ∷ ("dpi_hops", optional_int p.dpi_hops)
      ∷ ("autottl_delta", optional_int p.autottl_delta)
      ∷ ("ech_blocked", optional_truth p.ech_blocked)
      ∷ ("http_blocked", optional_truth p.http_blocked)
      ∷ ("dead_foolings", texts p.dead_foolings)
      ∷ ("viable_hosts", texts p.viable_hosts)
      ∷ ("dpi_diag", others p.dpi_diag)
      ∷ []

  -- `data.get(key)`
  unfoldable pub get : Dict Other → String → Value Other
  get dict key = elim (lookup key dict) [ none ↦ null | some v ↦ v ]

  -- `bool(v)`
  unfoldable pub is_true : Value Other → Bool
  is_true null = false
  is_true (truth b) = b
  is_true (int n) = elim n [ pos k ↦ not (eqb k 0) | negsuc k ↦ true ]
  is_true (float n) = not (eqb n 0)
  is_true (text s) = not (s == "")
  is_true (texts xs) = not (is_nil xs)
  is_true (flags xs) = not (is_nil xs)
  is_true (labels xs) = not (is_nil xs)
  is_true (reports xs) = not (is_nil xs)
  is_true (others xs) = not (is_nil xs)

  unfoldable pub read_phase : List FailPhase → Value Other → FailPhase
  read_phase cached (text s) = phase_of cached s
  read_phase cached _ = FailPhase.unknown

  unfoldable pub read_int : Value Other → Option ℤ
  read_int (int n) = some n
  read_int _ = none

  unfoldable pub read_truth : Value Other → Option Bool
  read_truth (truth b) = some b
  read_truth _ = none

  -- `int(v or 0)`, `float(v or 0.0)`, `str(v or "")`, `list(v or [])`, `dict(v or {})`
  unfoldable pub read_size : Value Other → ℤ
  read_size (int n) = n
  read_size _ = pos 0

  unfoldable pub read_float : Value Other → ℕ
  read_float (float n) = n
  read_float _ = 0

  unfoldable pub read_text : Value Other → String
  read_text (text s) = s
  read_text _ = ""

  unfoldable pub read_texts : Value Other → List String
  read_texts (texts xs) = xs
  read_texts _ = []

  unfoldable pub read_flags : Value Other → List (String × Bool)
  read_flags (flags xs) = xs
  read_flags _ = []

  unfoldable pub read_labels : Value Other → List (String × String)
  read_labels (labels xs) = xs
  read_labels _ = []

  unfoldable pub read_reports : Value Other → List (String × List (String × Other))
  read_reports (reports xs) = xs
  read_reports _ = []

  unfoldable pub read_others : Value Other → List (String × Other)
  read_others (others xs) = xs
  read_others _ = []

  -- `from_dict`
  unfoldable pub from_dict : List FailPhase → Dict Other → TriageProfile Other
  from_dict cached [] = empty_profile
  from_dict cached (pair ∷ rest) =
      let dict : Dict Other = pair ∷ rest in
      record {
        dns_hijacked = is_true (get dict "dns_hijacked");
        dns_sinkhole = is_true (get dict "dns_sinkhole");
        unbypassable_l3 = is_true (get dict "unbypassable_l3");
        l3_phase = read_phase cached (get dict "l3_phase");
        handshake_phase = read_phase cached (get dict "handshake_phase");
        rst_at_sni = is_true (get dict "rst_at_sni");
        silent_drop_after_sni = is_true (get dict "silent_drop_after_sni");
        stall_phase = read_phase cached (get dict "stall_phase");
        stall_at_bytes = read_int (get dict "stall_at_bytes");
        bandwidth_throttled = is_true (get dict "bandwidth_throttled");
        read_rate_bps = read_float (get dict "read_rate_bps");
        quic_drop = is_true (get dict "quic_drop");
        udp_blocked = is_true (get dict "udp_blocked");
        voice_ok = is_true (get dict "voice_ok");
        client_hello_len = read_size (get dict "client_hello_len");
        is_tls_fingerprint_blocked = is_true (get dict "is_tls_fingerprint_blocked");
        requires_postquantum_awareness = is_true (get dict "requires_postquantum_awareness");
        fingerprint_pass = read_flags (get dict "fingerprint_pass");
        domain_phases = read_labels (get dict "domain_phases");
        domain_reports = read_reports (get dict "domain_reports");
        viable_foolings = read_texts (get dict "viable_foolings");
        viable_blobs = read_texts (get dict "viable_blobs");
        split_mode = read_text (get dict "split_mode");
        server_hops = read_int (get dict "server_hops");
        dpi_hops = read_int (get dict "dpi_hops");
        autottl_delta = read_int (get dict "autottl_delta");
        ech_blocked = read_truth (get dict "ech_blocked");
        http_blocked = read_truth (get dict "http_blocked");
        dead_foolings = read_texts (get dict "dead_foolings");
        viable_hosts = read_texts (get dict "viable_hosts");
        dpi_diag = read_others (get dict "dpi_diag");
      }

-- ===== src/Triage.antt =====
-- src/blockchecks/engine/triage.py: what the preflight found out, and its form as a dict. A float is a number
-- that stands for it, 0 for 0.0; Python's `round` of floats is a parameter. `Other` are the values inside the reports of domains and `dpi_diag`.
pub mod Dicts
pub mod RoundTrip
pub mod Tags
pub mod Blobs
pub mod Pruning
pub mod Seeding
pub mod Idempotent
mod Tests
use blockcheck_s.Prelude.{
  ℕ, ◌+◌, ◌*◌, ◌/◌, ◌%◌, Bool, true, false, ◌&&◌, ◌||◌, not, String, Option, none, some, List, [],
  ◌∷◌, string_eq, eqb, ltb, ◌==◌, if◌then◌else◌,
}
use blockcheck_s.Prelude.Int.{ℤ}
use blockcheck_s.Prelude.Dict.{contains}
use blockcheck_s.FailPhase.{
  FailPhase, unknown, value, data_stall_7k, data_stall_16k, data_stall_42k, data_stall_64k_plus,
  data_stall_first_req, data_stall_tls_cert, zero_window_stall,
}

pub record TriageProfile (Other : Type 0) : Type 0 where
  pub dns_hijacked : Bool
  pub dns_sinkhole : Bool
  pub unbypassable_l3 : Bool
  pub l3_phase : FailPhase
  pub handshake_phase : FailPhase
  pub rst_at_sni : Bool
  pub silent_drop_after_sni : Bool
  pub stall_phase : FailPhase
  pub stall_at_bytes : Option ℤ
  pub bandwidth_throttled : Bool
  pub read_rate_bps : ℕ
  pub quic_drop : Bool
  pub udp_blocked : Bool
  pub voice_ok : Bool
  pub client_hello_len : ℤ
  pub is_tls_fingerprint_blocked : Bool
  pub requires_postquantum_awareness : Bool
  pub fingerprint_pass : List (String × Bool)
  pub domain_phases : List (String × String)
  pub domain_reports : List (String × List (String × Other))
  pub viable_foolings : List String
  pub viable_blobs : List String
  pub split_mode : String
  pub server_hops : Option ℤ
  pub dpi_hops : Option ℤ
  pub autottl_delta : Option ℤ
  pub ech_blocked : Option Bool
  pub http_blocked : Option Bool
  pub dead_foolings : List String
  pub viable_hosts : List String
  pub dpi_diag : List (String × Other)

-- `==` of two phases, by their values
abbrev pub is_phase : FailPhase → FailPhase → Bool
is_phase a b = value a == value b

abbrev pub stall_phases : List FailPhase
stall_phases =
    data_stall_7k ∷ data_stall_16k ∷ data_stall_42k ∷ data_stall_64k_plus ∷ data_stall_first_req
    ∷ data_stall_tls_cert ∷ zero_window_stall ∷ []

unfoldable pub any_phase : FailPhase → List FailPhase → Bool
any_phase p [] = false
any_phase p (q ∷ qs) = is_phase p q || any_phase p qs

module _ {Other : Type 0} where
  unfoldable pub requires_window_clamp : TriageProfile Other → Bool
  requires_window_clamp p = any_phase p.stall_phase stall_phases

  unfoldable pub prefer_quic : TriageProfile Other → Bool
  prefer_quic p = p.bandwidth_throttled || (not p.quic_drop && not p.udp_blocked)

  unfoldable pub bypassable : TriageProfile Other → Bool
  bypassable p = not p.unbypassable_l3 && not p.dns_sinkhole

  -- `TriageProfile()`
  abbrev pub empty_profile : TriageProfile Other
  empty_profile = record {
    dns_hijacked = false;
    dns_sinkhole = false;
    unbypassable_l3 = false;
    l3_phase = unknown;
    handshake_phase = unknown;
    rst_at_sni = false;
    silent_drop_after_sni = false;
    stall_phase = unknown;
    stall_at_bytes = none;
    bandwidth_throttled = false;
    read_rate_bps = 0;
    quic_drop = false;
    udp_blocked = false;
    voice_ok = false;
    client_hello_len = ℤ.pos 0;
    is_tls_fingerprint_blocked = false;
    requires_postquantum_awareness = false;
    fingerprint_pass = [];
    domain_phases = [];
    domain_reports = [];
    viable_foolings = [];
    viable_blobs = [];
    split_mode = "";
    server_hops = none;
    dpi_hops = none;
    autottl_delta = none;
    ech_blocked = none;
    http_blocked = none;
    dead_foolings = [];
    viable_hosts = [];
    dpi_diag = [];
  }

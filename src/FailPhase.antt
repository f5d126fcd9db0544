-- ===== src/FailPhase.antt =====
-- src/blockchecks/engine/fail_phase.py: the tokens of the failure phases, and the test that tells
-- infrastructure failures from those of the network.
use blockcheck_s.Prelude.{
  ℕ, Bool, true, false, ◌||◌, String, List, [], ◌∷◌, map, string_eq, if◌then◌else◌, ◌≡◌, refl,
}
use blockcheck_s.Prelude.Text.{append, contains_text, strip, lower, show}
use blockcheck_s.Prelude.Dict.{contains}

-- `http n` stands for the members that `_missing_` makes on the fly, HTTP_300 to HTTP_599.
pub data FailPhase : Type 0 where
  unknown other pass : FailPhase
  dns_resolve dns_tampered dns_sinkhole l4_syn_drop l4_rst_at_syn icmp_block ip_blocked : FailPhase
  tls_rst_at_sni tls_silent_drop_after_sni tls_fake_alert tls_handshake_error : FailPhase
  connect_timeout connect_refused : FailPhase
  data_stall_tls_cert data_stall_first_req data_stall_7k data_stall_16k data_stall_42k : FailPhase
  data_stall_64k_plus : FailPhase
  delayed_rst delayed_fin tls_injected_alert zero_window_stall h2_rst_stream : FailPhase
  bandwidth_throttled : FailPhase
  quic_drop udp_blocked : FailPhase
  http_redirect http_blocked : FailPhase
  http : ℕ → FailPhase

-- `FailPhase.value`
unfoldable pub value : FailPhase → String
unfolding show
value unknown = "unknown"
value other = "other"
value pass = "pass"
value dns_resolve = "dns_resolve"
value dns_tampered = "dns_tampered"
value dns_sinkhole = "dns_sinkhole"
value l4_syn_drop = "l4_syn_drop"
value l4_rst_at_syn = "l4_rst_at_syn"
value icmp_block = "icmp_block"
value ip_blocked = "ip_blocked"
value tls_rst_at_sni = "tls_rst_at_sni"
value tls_silent_drop_after_sni = "tls_silent_drop_after_sni"
value tls_fake_alert = "tls_fake_alert"
value tls_handshake_error = "tls_handshake_error"
value connect_timeout = "connect_timeout"
value connect_refused = "connect_refused"
value data_stall_tls_cert = "data_stall_tls_cert"
value data_stall_first_req = "data_stall_first_req"
value data_stall_7k = "data_stall_7k"
value data_stall_16k = "data_stall_16k"
value data_stall_42k = "data_stall_42k"
value data_stall_64k_plus = "data_stall_64k_plus"
value delayed_rst = "delayed_rst"
value delayed_fin = "delayed_fin"
value tls_injected_alert = "tls_injected_alert"
value zero_window_stall = "zero_window_stall"
value h2_rst_stream = "h2_rst_stream"
value bandwidth_throttled = "bandwidth_throttled"
value quic_drop = "quic_drop"
value udp_blocked = "udp_blocked"
value http_redirect = "http_redirect"
value http_blocked = "http_blocked"
value (http n) = append "http_" (show n)

abbrev pub infra_fail_phases : List FailPhase
infra_fail_phases = connect_timeout ∷ []

abbrev pub infra_error_markers : List String
infra_error_markers =
    "dev/shm" ∷ "Permission denied" ∷ "ns pool exhausted" ∷ "stopped before probe"
    ∷ "batch probe loop failed" ∷ []

any_marker : List String → String → Bool
any_marker [] err = false
any_marker (m ∷ ms) err = contains_text err m || any_marker ms err

unfoldable pub is_infra_fail_phase : String → String → Bool
unfolding any_marker contains_text strip lower value contains
is_infra_fail_phase fail_phase error =
    if any_marker infra_error_markers error
    then true
    else contains (map value infra_fail_phases) (lower (strip fail_phase))

infra_cases :
    (is_infra_fail_phase " CONNECT_TIMEOUT" "" ≡ true)
    × (is_infra_fail_phase "tls_fake_alert" "shm open: Permission denied" ≡ true)
    × (is_infra_fail_phase "tls_fake_alert" "reset" ≡ false)
unfolding is_infra_fail_phase
infra_cases = (refl, refl, refl)

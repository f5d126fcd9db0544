-- ===== src/Quarantine/Tests.antt =====
-- The tracker of src/blockchecks/engine/domain_quarantine.py at small inputs.
use blockcheck_s.Prelude.Text.{before, strip, lower, show}
use blockcheck_s.Quarantine.Denylist.{lines_of, tokens, denied, write_entries, append_denylist}
use blockcheck_s.Prelude.{
  Bool, true, false, ◌||◌, leb, String, none, some, List, [], ◌∷◌, string_eq, ◌≡◌, refl, arith,
}
use blockcheck_s.Prelude.Dict.{lookup, insert, has_key, contains}
use blockcheck_s.FailPhase.{value, is_infra_fail_phase}
use blockcheck_s.Quarantine.{
  Entry, no_pass, QuarantineConfig, DomainQuarantine, Probe, fresh, counts_pass, record_all,
  record_probe,
}
use blockcheck_s.Quarantine.Verdict.{
  before_pass, blocked_count, no_address_count, fresh-record_all, record_all_passed,
}
use blockcheck_s.Quarantine.Entries.{
  Call, probe, seed, calls, HasSoundEntries, calls-HasSoundEntries,
}

abbrev config : QuarantineConfig
config = record {
  enabled = true;
  min_attempts = 2;
  dns_resolve_min_attempts = 1;
  auto_denylist = false;
}

abbrev tried : String → Bool → String → Probe
tried domain passed phase = record {
  now = "t";
  domain = domain;
  passed = passed;
  status = none;
  fail_phase = phase;
  error = "";
}

abbrev probes : List Probe
probes =
    tried "a.com" false "tls_rst_at_sni"
    ∷ tried "b.com" true ""
    ∷ tried "a.com" false "connect_timeout"
    ∷ tried "b.com" false "dns_resolve"
    ∷ tried "a.com" false "tls_rst_at_sni"
    ∷ []

-- The time-out does not count, and the success protects the other domain.
probes_case :
    (has_key "a.com" (record_all (fresh config) probes).quarantined ≡ true)
    × (has_key "b.com" (record_all (fresh config) probes).quarantined ≡ false)
unfolding record_all record_probe lookup insert counts_pass value is_infra_fail_phase
probes_case = (refl, refl)

fresh-record_all_example : has_key "a.com" (record_all (fresh config) probes).quarantined ≡ (
    leb 2 (blocked_count (before_pass "a.com" probes))
    || leb 1 (no_address_count (before_pass "a.com" probes)))
fresh-record_all_example = fresh-record_all config "a.com" probes refl (omega arith) (omega arith)

abbrev passed_once : DomainQuarantine
passed_once = record {
  config = config;
  stats = ("a.com", record { attempts = 1; passed = 1; dns_resolve_attempts = 0 }) ∷ [];
  quarantined = [];
}

record_all_passed_example : has_key "a.com" (record_all passed_once probes).quarantined ≡ false
unfolding lookup
record_all_passed_example = record_all_passed passed_once "a.com" probes (omega arith) refl

abbrev call_list : List Call
call_list = probe (tried "a.com" false "dns_resolve") ∷ seed "t" (("c.com", 7, 0) ∷ []) ∷ []

calls-HasSoundEntries_example : HasSoundEntries (calls (fresh config) call_list)
calls-HasSoundEntries_example = calls-HasSoundEntries config call_list

abbrev entry : String → Entry
entry domain = record {
  domain = domain;
  attempts = 3;
  passed = 0;
  failed = 3;
  ts = "t";
  reason = no_pass 3;
}

-- An entry is written once, and is not written where it stands.
appended_once :
    (append_denylist (some "a.com # old\n") (entry "A.com " ∷ entry "b.com" ∷ entry "b.com" ∷ [])).1
    ≡ "b.com" ∷ []
unfolding append_denylist write_entries denied lines_of tokens before strip lower contains show
appended_once = refl

-- Behind a last line without an end the first new entry is lost: neither domain is denied.
glued : denied (some (append_denylist (some "a.com") (entry "b.com" ∷ [])).0) ≡ "a.comb.com" ∷ []
unfolding append_denylist write_entries denied lines_of tokens before strip lower contains show
glued = refl

-- ===== src/Triage/Tests.antt =====
-- The triage at small inputs.
use blockcheck_s.Prelude.{
  ℕ, eqb, true, false, String, none, some, List, [], ◌∷◌, string_eq, if◌then◌else◌, ◌≡◌, refl,
}
use blockcheck_s.Prelude.Int.{pos}
use blockcheck_s.Prelude.Lists.{All}
use blockcheck_s.Prelude.Text.{show, contains_text}
use blockcheck_s.Prelude.Dict.{lookup, contains}
use blockcheck_s.Job.{StrategyItem}
use blockcheck_s.FailPhase.{FailPhase, value}
use blockcheck_s.Weights
use blockcheck_s.Triage.{TriageProfile, empty_profile}
use blockcheck_s.Triage.Dicts.{find_phase, phase_of, to_dict, get, read_phase, from_dict}
use blockcheck_s.Triage.RoundTrip.{from_dict-to_dict}
use blockcheck_s.Triage.Tags.{dead_fooling_tokens}
use blockcheck_s.Triage.Blobs.{
  aliases_from, filter_blob_aliases, filter_blob_aliases-aliases_for_class,
}
use blockcheck_s.Triage.Pruning.{Patterns}
use blockcheck_s.Triage.Seeding.{seed_from_triage, fool_keys}
use blockcheck_s.Triage.Idempotent.{seed_from_triage-again}

abbrev profile : TriageProfile String
profile = record empty_profile {
  rst_at_sni = true;
  handshake_phase = FailPhase.tls_rst_at_sni;
  stall_phase = FailPhase.data_stall_16k;
  stall_at_bytes = some (pos 16000);
  read_rate_bps = 1234;
  viable_foolings = "badsum" ∷ [];
  viable_blobs = "stun" ∷ [];
  split_mode = "first_byte";
  dead_foolings = "tcp_seq=1000" ∷ [];
}

-- 1234 stands for 12.34, 1230 for 12.3, and every other number for a float that is rounded.
abbrev round_1 : ℕ → ℕ
round_1 x = if eqb x 1234 then 1230 else x

from_dict-to_dict_example :
    from_dict [] (to_dict round_1 profile) ≡ record profile { read_rate_bps = 1230 }
unfolding phase_of find_phase value
from_dict-to_dict_example = from_dict-to_dict [] round_1 profile (refl, refl, refl)

-- A phase that was made in another process is lost.
http_is_lost :
    (from_dict []
      (to_dict round_1 (record profile { handshake_phase = FailPhase.http 403 }))).handshake_phase
    ≡ FailPhase.unknown
unfolding to_dict from_dict get lookup read_phase phase_of find_phase value show
http_is_lost = refl

abbrev pool : List String
pool = "stun2" ∷ "google" ∷ []

filter_blob_aliases-aliases_for_class_example :
    contains (filter_blob_aliases [] (some pool) (some profile) "tcp") "stun2" ≡ true
unfolding contains aliases_from
filter_blob_aliases-aliases_for_class_example =
    filter_blob_aliases-aliases_for_class [] pool profile "tcp" "stun" "stun2" refl refl refl

abbrev patterns : Patterns
patterns = record {
  fooling_keys = λ s. if contains_text s "tcp_seq" then "tcp_seq" ∷ [] else [];
  ip_ttl = λ s. none;
  blobs = λ s. [];
  static_numeric_split = λ s. false;
  pos_one = λ s. false;
}

abbrev items : List StrategyItem
items =
    record { label = "a"; strategy = "fake:tcp_seq=1000"; is_config = false; protocol = "tls12" }
    ∷ record {
      label = "b";
      strategy = "multisplit:pos=sniext";
      is_config = false;
      protocol = "tls12";
    }
    ∷ []

seed_from_triage-again_example :
    (seed_from_triage (seed_from_triage Weights.fresh (some profile)) (some profile)
      ≡ seed_from_triage Weights.fresh (some profile))
    × All
        (λ k. lookup k (seed_from_triage Weights.fresh (some profile)).trait ≡ some 1)
        (fool_keys (dead_fooling_tokens (some profile)))
seed_from_triage-again_example = seed_from_triage-again Weights.fresh profile

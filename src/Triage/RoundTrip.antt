-- ===== src/Triage/RoundTrip.antt =====
-- The round trip of src/blockchecks/engine/triage.py through a dict.
use blockcheck_s.Prelude.{ℕ, Bool, Option, none, some, List, string_eq, ◌≡◌, refl}
use blockcheck_s.Prelude.Int.{ℤ}
use blockcheck_s.Prelude.Dict.{lookup}
use blockcheck_s.FailPhase.{FailPhase, value}
use blockcheck_s.Triage.{TriageProfile}
use blockcheck_s.Triage.Dicts.{
  phase_of, Value, to_dict, get, is_true, read_phase, read_int, read_truth, read_size, read_float,
  read_text, read_texts, read_flags, read_labels, read_reports, read_others, from_dict,
}

-- The phase is found again by its value.
abbrev pub IsFound : List FailPhase → FailPhase → Type 0
IsFound cached p = phase_of cached (value p) ≡ p

module _ {Other : Type 0} (cached : List FailPhase) (round_1 : ℕ → ℕ) where
  abbrev pub IsStored : TriageProfile Other → Type 0
  IsStored p =
      IsFound cached p.l3_phase × IsFound cached p.handshake_phase × IsFound cached p.stall_phase

  -- Whatever `round(x, 1)` of a float is, a profile whose phases are found by their values comes back
  -- from its dict as it was, but for the read rate, which is then rounded.
  pub from_dict-to_dict :
      (p : TriageProfile Other)
      → IsStored p
      → from_dict cached (to_dict round_1 p) ≡ record p { read_rate_bps = round_1 p.read_rate_bps }
  unfolding to_dict from_dict get lookup is_true read_phase read_int read_truth read_size read_float
      read_text read_texts read_flags read_labels read_reports read_others
  from_dict-to_dict p (l3, handshake, stall) = λ i.
      record (record p { read_rate_bps = round_1 p.read_rate_bps }) {
        l3_phase = l3 i;
        handshake_phase = handshake i;
        stall_phase = stall i;
        stall_at_bytes = ints p.stall_at_bytes i;
        server_hops = ints p.server_hops i;
        dpi_hops = ints p.dpi_hops i;
        autottl_delta = ints p.autottl_delta i;
        ech_blocked = truths p.ech_blocked i;
        http_blocked = truths p.http_blocked i;
      }
    where
      ints :
          (o : Option ℤ)
          → read_int {Other = Other} (elim o [ none ↦ Value.null | some n ↦ Value.int n ]) ≡ o
      ints none = refl
      ints (some n) = refl

      truths :
          (o : Option Bool)
          → read_truth {Other = Other} (elim o [ none ↦ Value.null | some b ↦ Value.truth b ]) ≡ o
      truths none = refl
      truths (some b) = refl

-- ===== src/Bridge/Exclusion.antt =====
-- The quarantine and the excluded domains of src/blockchecks/engine/bridge_worker_pool.py stay in step.
use blockcheck_s.Prelude.{
  Bool, ◌||◌, ◌==◌, ==_iff, if◌then◌else◌, String, List, [], ◌∷◌, string_eq, ◌≡◌, arith,
  Option-cases, inl, inr,
}
use blockcheck_s.Prelude.Dict.{has_key, contains, contains-add}
use blockcheck_s.Quarantine.{DomainQuarantine, Probe, record_probe}
use blockcheck_s.Quarantine.Entries.{record_probe-Reports}
use blockcheck_s.Bridge.{record_quarantine_hit}

-- The calls of `record_quarantine_hit` of a campaign, in order.
unfoldable pub record_hits :
    DomainQuarantine → List String → List Probe → DomainQuarantine × List String
record_hits q excluded [] = (q, excluded)
record_hits q excluded (p ∷ ps) =
    let (q', excluded') = record_quarantine_hit q excluded p in record_hits q' excluded' ps

-- Of the domains with a name, the queue skips exactly the quarantined ones, and those that were excluded
-- from the start; of the empty one the exclusion never changes.
abbrev pub InStep : (String → Bool) → DomainQuarantine × List String → Type 0
InStep first r =
    (d : String)
    → contains r.1 d ≡ (if d == "" then first d else first d || has_key d r.0.quarantined)

record_quarantine_hit-InStep :
    (first : String → Bool) (q : DomainQuarantine) (excluded : List String) (p : Probe)
    → InStep first (q, excluded)
    → InStep first (record_quarantine_hit q excluded p)
unfolding record_quarantine_hit
record_quarantine_hit-InStep first q excluded p h d =
    let (silent, named) = record_probe-Reports q p in
    elim (Option-cases (record_probe q p).1) [
      | inl e ↦ ground (arith, e, silent e, h d)
      | inr (x, e) ↦
          let (at, new, now) = named x e in
          ground
            (arith, e, now d, h d, contains-add x d excluded, ==_iff x d, ==_iff x "", ==_iff d "")
    ]

-- If the excluded domains are the quarantined ones and those excluded from the start, but for the empty
-- domain, which is excluded only if it was so from the start, then they stay so, whatever is recorded.
pub record_hits-InStep :
    (first : String → Bool) (q : DomainQuarantine) (excluded : List String) (ps : List Probe)
    → InStep first (q, excluded)
    → InStep first (record_hits q excluded ps)
unfolding record_hits
record_hits-InStep first q excluded [] h = h
record_hits-InStep first q excluded (p ∷ ps) h =
    let r = record_quarantine_hit q excluded p in
    record_hits-InStep first r.0 r.1 ps (record_quarantine_hit-InStep first q excluded p h)

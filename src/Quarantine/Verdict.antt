-- ===== src/Quarantine/Verdict.antt =====
-- When `record` of src/blockchecks/engine/domain_quarantine.py quarantines a domain, stated over the
-- history of the domain's probes.
use blockcheck_s.Prelude.{
  ℕ, ◌+◌, ◌≤◌, ◌<◌, Bool, true, false, ◌||◌, String, List, [], ◌∷◌, string_eq, leb, ◌==◌, ==_iff,
  if◌then◌else◌, ◌≡◌, refl, arith, inl, inr, Bool-cases,
}
use blockcheck_s.Prelude.Dict.{has_key, lookup-insert, lookup-nil}
use blockcheck_s.FailPhase.{value, dns_resolve, is_infra_fail_phase}
use blockcheck_s.Quarantine.{
  Entry, QuarantineConfig, DomainQuarantine, DomainStats, Probe, fresh, stats_of, counts_pass,
  record_probe, record_all,
}

-- What a probe says about its domain.
pub data Outcome : Type 0 where
  working no_address infra blocked : Outcome

pub outcome : Probe → Outcome
outcome p =
    if counts_pass p
    then working
    else if p.fail_phase == value dns_resolve
    then no_address
    else if is_infra_fail_phase p.fail_phase p.error
    then infra
    else blocked

-- The outcomes of the probes of `d`, up to the first one that works.
abbrev pub push : Bool → Outcome → List Outcome → List Outcome
push false o os = os
push true working os = []
push true o os = o ∷ os

pub before_pass : String → List Probe → List Outcome
before_pass d [] = []
before_pass d (p ∷ ps) = push (p.domain == d) (outcome p) (before_pass d ps)

abbrev one_blocked : Outcome → ℕ
one_blocked blocked = 1
one_blocked _ = 0

abbrev one_no_address : Outcome → ℕ
one_no_address no_address = 1
one_no_address _ = 0

pub blocked_count : List Outcome → ℕ
blocked_count [] = 0
blocked_count (o ∷ os) = one_blocked o + blocked_count os

pub no_address_count : List Outcome → ℕ
no_address_count [] = 0
no_address_count (o ∷ os) = one_no_address o + no_address_count os

abbrev dead : QuarantineConfig → ℕ → ℕ → Bool
dead c a n = leb c.min_attempts a || leb c.dns_resolve_min_attempts n

-- One call of `record` with every callee but the dict open.
module _ (q : DomainQuarantine) (p : Probe) where
  pub config-record_probe : (record_probe q p).0.config ≡ q.config
  unfolding record_probe
  config-record_probe = ground arith

  -- The part of the state that belongs to a domain is left alone by the probes of the others.
  pub record_probe_other :
      (d : String)
      → (p.domain == d) ≡ false
      → (stats_of (record_probe q p).0 d ≡ stats_of q d)
        × (has_key d (record_probe q p).0.quarantined ≡ has_key d q.quarantined)
  unfolding record_probe
  record_probe_other d ne = grind (arith, lookup-insert)

  -- Once quarantined, a domain stays so.
  pub record_probe_keeps :
      (d : String)
      → has_key d q.quarantined ≡ true
      → has_key d (record_probe q p).0.quarantined ≡ true
  unfolding record_probe
  record_probe_keeps d h = grind (arith, lookup-insert)

  -- A probe of `d` itself that works.
  record_probe_working :
      (d : String)
      → p.domain ≡ d
      → outcome p ≡ working
      → has_key d q.quarantined ≡ false
      → q.config.enabled ≡ true
      → (0 < (stats_of (record_probe q p).0 d).passed)
        × (has_key d (record_probe q p).0.quarantined ≡ false)
  unfolding record_probe outcome
  record_probe_working d e w h on = grind (arith, lookup-insert, ==_iff p.domain d)

  record_probe_infra : outcome p ≡ infra → (record_probe q p).0 ≡ q
  unfolding record_probe outcome
  record_probe_infra w = ground arith

  module _ (d : String) (e : p.domain ≡ d) (h : has_key d q.quarantined ≡ false)
      (on : q.config.enabled ≡ true) (never : (stats_of q d).passed ≡ 0) where
    record_probe_blocked :
        outcome p ≡ blocked
        → (stats_of (record_probe q p).0 d
            ≡ record (stats_of q d) { attempts = (stats_of q d).attempts + 1 })
          × (has_key d (record_probe q p).0.quarantined
              ≡ leb q.config.min_attempts ((stats_of q d).attempts + 1))
    unfolding record_probe outcome
    record_probe_blocked w = grind (arith, lookup-insert, ==_iff p.domain d)

    record_probe_no_address :
        outcome p ≡ no_address
        → (stats_of (record_probe q p).0 d ≡ record (stats_of q d) {
          dns_resolve_attempts = (stats_of q d).dns_resolve_attempts + 1;
        })
          × (has_key d (record_probe q p).0.quarantined
              ≡ leb q.config.dns_resolve_min_attempts ((stats_of q d).dns_resolve_attempts + 1))
    unfolding record_probe outcome
    record_probe_no_address w = grind (arith, lookup-insert, ==_iff p.domain d)

  -- A domain that has passed is not quarantined by a probe.
  record_probe_passed :
      (d : String)
      → 0 < (stats_of q d).passed
      → has_key d q.quarantined ≡ false
      → (0 < (stats_of (record_probe q p).0 d).passed)
        × (has_key d (record_probe q p).0.quarantined ≡ false)
  unfolding record_probe
  record_probe_passed d e h = grind (arith, lookup-insert, ==_iff p.domain d)

-- A domain that has passed stays out of the quarantine, whatever its later probes say.
pub record_all_passed :
    (q : DomainQuarantine) (d : String) (ps : List Probe)
    → 0 < (stats_of q d).passed
    → has_key d q.quarantined ≡ false
    → has_key d (record_all q ps).quarantined ≡ false
unfolding record_all
record_all_passed q d [] h out = out
record_all_passed q d (p ∷ ps) h out =
    let (h', out') = record_probe_passed q p d h out in
    record_all_passed (record_probe q p).0 d ps h' out'

record_all_keeps :
    (q : DomainQuarantine) (d : String) (ps : List Probe)
    → has_key d q.quarantined ≡ true
    → has_key d (record_all q ps).quarantined ≡ true
unfolding record_all
record_all_keeps q d [] h = h
record_all_keeps q d (p ∷ ps) h =
    record_all_keeps (record_probe q p).0 d ps (record_probe_keeps q p d h)

-- The verdict on `d`, from its counters and the probes still to come.
abbrev verdict : DomainQuarantine → String → List Outcome → Bool
verdict q d os =
    dead q.config ((stats_of q d).attempts + blocked_count os)
      ((stats_of q d).dns_resolve_attempts + no_address_count os)

-- The tracker knows nothing bad enough of `d` yet.
record Open (q : DomainQuarantine) (d : String) : Type 0 where
  on : q.config.enabled ≡ true
  out : has_key d q.quarantined ≡ false
  never : (stats_of q d).passed ≡ 0
  alive : dead q.config (stats_of q d).attempts (stats_of q d).dns_resolve_attempts ≡ false

abbrev Exact : DomainQuarantine → String → List Probe → Type 0
Exact q d ps = has_key d (record_all q ps).quarantined ≡ verdict q d (before_pass d ps)

module _ (q : DomainQuarantine) (d : String) (p : Probe) (ps : List Probe) (o : Open q d)
    (ih : Open (record_probe q p).0 d → Exact (record_probe q p).0 d ps) where
  Exact-other : (p.domain == d) ≡ false → Exact q d (p ∷ ps)
  unfolding before_pass record_all
  Exact-other ne = ground (arith, o, config-record_probe q p, record_probe_other q p d ne, ih)

  Exact-self : p.domain ≡ d → (r : Outcome) → outcome p ≡ r → Exact q d (p ∷ ps)
  unfolding before_pass record_all blocked_count no_address_count
  Exact-self e working w =
      let (h, out) = record_probe_working q p d e w o.out o.on in
      ground (arith, o, ==_iff p.domain d, record_all_passed (record_probe q p).0 d ps h out)
  Exact-self e infra w = ground (arith, o, ==_iff p.domain d, record_probe_infra q p w, ih)
  Exact-self e blocked w = ground (
    arith,
    o,
    ==_iff p.domain d,
    config-record_probe q p,
    record_probe_blocked q p d e o.out o.on o.never w,
    ih,
    record_all_keeps (record_probe q p).0 d ps,
  )
  Exact-self e no_address w = ground (
    arith,
    o,
    ==_iff p.domain d,
    config-record_probe q p,
    record_probe_no_address q p d e o.out o.on o.never w,
    ih,
    record_all_keeps (record_probe q p).0 d ps,
  )

record_all-Exact : (q : DomainQuarantine) (d : String) (ps : List Probe) → Open q d → Exact q d ps
unfolding before_pass record_all blocked_count no_address_count
record_all-Exact q d [] o = ground (arith, o)
record_all-Exact q d (p ∷ ps) o = elim (Bool-cases (p.domain == d)) [
  | inl e ↦
      Exact-self q d p ps o (record_all-Exact (record_probe q p).0 d ps) ((==_iff p.domain d).0 e)
        (outcome p) refl
  | inr ne ↦ Exact-other q d p ps o (record_all-Exact (record_probe q p).0 d ps) ne
]

-- With thresholds of at least one, a fresh tracker has quarantined a domain after any probes exactly
-- when, before the first probe of the domain that works, the failures that count reach the one
-- threshold or the failed look-ups the other.
pub fresh-record_all :
    (c : QuarantineConfig) (d : String) (ps : List Probe)
    → c.enabled ≡ true
    → 1 ≤ c.min_attempts
    → 1 ≤ c.dns_resolve_min_attempts
    → has_key d (record_all (fresh c) ps).quarantined ≡ (
        leb c.min_attempts (blocked_count (before_pass d ps))
        || leb c.dns_resolve_min_attempts (no_address_count (before_pass d ps)))
fresh-record_all c d ps on a n = ground (
  arith,
  record_all-Exact (fresh c) d ps,
  lookup-nil {K = String} {V = DomainStats} d,
  lookup-nil {K = String} {V = Entry} d,
)

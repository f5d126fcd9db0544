-- ===== src/Quarantine/Entries.antt =====
-- The entries of the quarantine of src/blockchecks/engine/domain_quarantine.py: what each of them
-- records, and what `record` reports about them.
use blockcheck_s.Prelude.{
  if_both, not, ℕ, ◌≤◌, Bool, true, false, ◌||◌, String, none, some, List, [], ◌∷◌, string_eq, ◌==◌,
  ==_iff, ◌≡◌, arith,
}
use blockcheck_s.Prelude.Dict.{lookup, has_key, lookup-insert, lookup-nil}
use blockcheck_s.Quarantine.{
  Entry, Reason, no_pass, dns_failures, QuarantineConfig, DomainQuarantine, Probe, Row, fresh,
  record_probe, seed_row, seed_dns_row, seed_loop, seed_from_rows, seed_dns_resolve_from_rows,
}

-- The reason shows the number of failures, and that number reached the threshold of its kind.
abbrev pub IsJustified : QuarantineConfig → Entry → Reason → Type 0
IsJustified c x (no_pass n) = (x.failed ≡ n) × (x.attempts ≡ n) × (c.min_attempts ≤ n)
IsJustified c x (dns_failures n) = (x.failed ≡ n) × (c.dns_resolve_min_attempts ≤ n)

pub record IsSound (c : QuarantineConfig) (k : String) (x : Entry) : Type 0 where
  pub named : x.domain ≡ k
  pub no_success : x.passed ≡ 0
  pub justified : IsJustified c x x.reason

pub record HasSoundEntries (q : DomainQuarantine) : Type 0 where
  pub at : (k : String) (x : Entry) → lookup k q.quarantined ≡ some x → IsSound q.config k x

pub record_probe-HasSoundEntries :
    (q : DomainQuarantine) (p : Probe) → HasSoundEntries q → HasSoundEntries (record_probe q p).0
unfolding record_probe
record_probe-HasSoundEntries q p h = record {
  at = λ k x e. grind (arith, h.at k x, lookup-insert, ==_iff p.domain k);
}

pub seed_row-HasSoundEntries :
    (q : DomainQuarantine) (now d : String) (t s : ℕ)
    → HasSoundEntries q
    → HasSoundEntries (seed_row q now d t s).0
unfolding seed_row
seed_row-HasSoundEntries q now d t s h = record {
  at = λ k x e. grind (arith, h.at k x, lookup-insert, ==_iff d k);
}

pub seed_dns_row-HasSoundEntries :
    (q : DomainQuarantine) (now d : String) (t s : ℕ)
    → HasSoundEntries q
    → HasSoundEntries (seed_dns_row q now d t s).0
unfolding seed_dns_row
seed_dns_row-HasSoundEntries q now d t s h = record {
  at = λ k x e. grind (arith, h.at k x, lookup-insert, ==_iff d k);
}

-- The calls that change the tracker.
pub data Call : Type 0 where
  probe : Probe → Call
  seed seed_dns : String → List Row → Call

unfoldable pub call : DomainQuarantine → Call → DomainQuarantine
call q (probe p) = (record_probe q p).0
call q (seed now rows) = (seed_from_rows q now rows).0
call q (seed_dns now rows) = (seed_dns_resolve_from_rows q now rows).0

unfoldable pub calls : DomainQuarantine → List Call → DomainQuarantine
calls q [] = q
calls q (c ∷ cs) = calls (call q c) cs

-- What every row keeps, the loop over the rows keeps.
pub seed_loop_induction :
    (P : DomainQuarantine → Type 0)
    (body : DomainQuarantine → String → String → ℕ → ℕ → DomainQuarantine × Bool)
    → ((q : DomainQuarantine) (now d : String) (t s : ℕ) → P q → P (body q now d t s).0)
    → (q : DomainQuarantine) (now : String) (rows : List Row) → P q
    → P (seed_loop body q now rows).0
unfolding seed_loop
seed_loop_induction P body keep q now [] h = h
seed_loop_induction P body keep q now ((d, t, s) ∷ rows) h =
    seed_loop_induction P body keep (body q now d t s).0 now rows (keep q now d t s h)

-- What each call keeps under `record` and under the two bodies of the loops.
module _ (P : DomainQuarantine → Type 0)
    (on_probe : (q : DomainQuarantine) (p : Probe) → P q → P (record_probe q p).0)
    (on_row : (q : DomainQuarantine) (now d : String) (t s : ℕ) → P q → P (seed_row q now d t s).0)
    (on_dns : (q : DomainQuarantine) (now d : String) (t s : ℕ)
      → P q
      → P (seed_dns_row q now d t s).0) where
  call_induction : (q : DomainQuarantine) (c : Call) → P q → P (call q c)
  unfolding call seed_from_rows seed_dns_resolve_from_rows
  call_induction q (probe p) h = on_probe q p h
  call_induction q (seed now rows) h =
      if_both {A = DomainQuarantine × List String} (λ r. P r.0) (not q.config.enabled) (q, []) _ h
        (seed_loop_induction P seed_row on_row q now rows h)
  call_induction q (seed_dns now rows) h =
      if_both {A = DomainQuarantine × List String} (λ r. P r.0) (not q.config.enabled) (q, []) _ h
        (seed_loop_induction P seed_dns_row on_dns q now rows h)

  pub calls_induction : (q : DomainQuarantine) (cs : List Call) → P q → P (calls q cs)
  unfolding calls
  calls_induction q [] h = h
  calls_induction q (c ∷ cs) h = calls_induction (call q c) cs (call_induction q c h)

fresh-HasSoundEntries : (c : QuarantineConfig) → HasSoundEntries (fresh c)
fresh-HasSoundEntries c = record { at = λ k x e. cc (lookup-nil {V = Entry} k) }

-- After any calls on a fresh tracker, each entry is filed under its own domain, had no success when
-- it was made, and shows a number of failures that reached the threshold of its reason.
pub calls-HasSoundEntries :
    (c : QuarantineConfig) (cs : List Call) → HasSoundEntries (calls (fresh c) cs)
calls-HasSoundEntries c cs =
    calls_induction HasSoundEntries record_probe-HasSoundEntries seed_row-HasSoundEntries
      seed_dns_row-HasSoundEntries (fresh c) cs (fresh-HasSoundEntries c)

-- No call takes a domain out of the quarantine.
pub calls_keep :
    (q : DomainQuarantine) (k : String) (cs : List Call)
    → has_key k q.quarantined ≡ true
    → has_key k (calls q cs).quarantined ≡ true
unfolding record_probe seed_row seed_dns_row
calls_keep q k cs h =
    calls_induction (λ q'. has_key k q'.quarantined ≡ true) (λ q p h. grind (arith, lookup-insert))
      (λ q now d t s h. grind (arith, lookup-insert))
      (λ q now d t s h. grind (arith, lookup-insert)) q cs h

-- The answer `None` where no domain enters the quarantine, and else the probe's domain, the only one
-- that enters.
abbrev pub Reports : DomainQuarantine → Probe → Type 0
Reports q p =
    ((record_probe q p).1 ≡ none → (record_probe q p).0.quarantined ≡ q.quarantined)
    × ((d : String)
        → (record_probe q p).1 ≡ some d
        → (d ≡ p.domain)
          × (has_key d q.quarantined ≡ false)
          × ((k : String)
              → has_key k (record_probe q p).0.quarantined ≡ (d == k || has_key k q.quarantined)))

-- `record` returns `None` where no domain enters the quarantine, and else the probe's domain, which
-- was not in it before and is the only one that enters.
pub record_probe-Reports : (q : DomainQuarantine) (p : Probe) → Reports q p
unfolding record_probe
record_probe-Reports q p = (
  λ h. ground arith,
  λ d h. (
    ground arith,
    ground arith,
    λ k. grind (arith, lookup-insert, ==_iff d k, ==_iff p.domain k),
  ),
)

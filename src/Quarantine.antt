-- ===== src/Quarantine.antt =====
-- src/blockchecks/engine/domain_quarantine.py: the tracker that stops the probing of domains that
-- never pass. A method returns the new tracker and its result; `self.stats` and `self.quarantined`
-- are dicts in insertion order. The time stamp of an entry is an argument, and the text of a reason
-- is the constructor of `Reason` with the number that the text shows. Log output is left out.
pub mod Verdict
pub mod Entries
pub mod Seeding
pub mod Denylist
mod Tests
use blockcheck_s.Prelude.{
  ℕ, ◌+◌, min, max, Bool, true, false, ◌&&◌, ◌||◌, not, String, Option, none, some, List, [], ◌∷◌,
  ◌++◌, string_eq, eqb, ltb, leb, ◌==◌, if◌then◌else◌,
}
use blockcheck_s.Prelude.Int.{ℤ, clamp_ℤ}
use blockcheck_s.Prelude.Dict.{lookup, insert, has_key, contains, keys}
use blockcheck_s.FailPhase.{value, dns_resolve, is_infra_fail_phase}

abbrev pub quarantine_min_lo : ℕ
quarantine_min_lo = 1

abbrev pub quarantine_min_hi : ℕ
quarantine_min_hi = 10000

abbrev pub default_min_attempts : ℕ
default_min_attempts = 300

abbrev pub default_dns_resolve_min : ℕ
default_dns_resolve_min = 50

-- `to_int` is Python's `int()`, with `none` for a TypeError or a ValueError.
unfoldable pub clamp_quarantine_min : {V : Type 0} → (V → Option ℤ) → Option V → ℕ → ℕ
clamp_quarantine_min to_int none default = default
clamp_quarantine_min to_int (some v) default = elim (to_int v) [
  | none ↦ default
  | some n ↦ clamp_ℤ quarantine_min_lo quarantine_min_hi n
]

pub record DomainStats : Type 0 where
  pub attempts : ℕ
  pub passed : ℕ
  pub dns_resolve_attempts : ℕ

pub record QuarantineConfig : Type 0 where
  pub enabled : Bool
  pub min_attempts : ℕ
  pub dns_resolve_min_attempts : ℕ
  pub auto_denylist : Bool

pub data Reason : Type 0 where
  no_pass : ℕ → Reason
  dns_failures : ℕ → Reason

pub record Entry : Type 0 where
  pub domain : String
  pub attempts : ℕ
  pub passed : ℕ
  pub failed : ℕ
  pub ts : String
  pub reason : Reason

pub record DomainQuarantine : Type 0 where
  pub config : QuarantineConfig
  pub stats : List (String × DomainStats)
  pub quarantined : List (String × Entry)

abbrev pub fresh_stats : DomainStats
fresh_stats = record { attempts = 0; passed = 0; dns_resolve_attempts = 0 }

abbrev pub fresh : QuarantineConfig → DomainQuarantine
fresh c = record { config = c; stats = []; quarantined = [] }

-- `self.stats.setdefault(domain, _DomainStats())`
abbrev pub stats_of : DomainQuarantine → String → DomainStats
stats_of q domain = elim (lookup domain q.stats) [ none ↦ fresh_stats | some st ↦ st ]

-- What `st.attempts += 1` and the like leave in the dict.
abbrev pub put_stats : DomainQuarantine → String → DomainStats → DomainQuarantine
put_stats q domain st = record q { stats = insert domain st q.stats }

-- `_mark`
unfoldable pub mark :
    DomainQuarantine → String → String → DomainStats → Reason → ℕ → DomainQuarantine
mark q now domain st reason failed = record q {
  quarantined =
      insert domain
        (record {
          domain = domain;
          attempts = st.attempts;
          passed = st.passed;
          failed = failed;
          ts = now;
          reason = reason;
        })
        q.quarantined;
}

-- The body of the loop of `seed_from_rows`, and whether it appends the domain to `newly`.
unfoldable pub seed_row : DomainQuarantine → String → String → ℕ → ℕ → DomainQuarantine × Bool
unfolding mark
seed_row q now domain total passed =
    let old = stats_of q domain in
    let st : DomainStats = record old {
      attempts = max old.attempts total;
      passed = max old.passed passed;
    } in
    let q' = put_stats q domain st in
    if not (has_key domain q.quarantined)
      && leb q.config.min_attempts st.attempts
      && eqb st.passed 0
    then (mark q' now domain st (no_pass st.attempts) st.attempts, true)
    else (q', false)

-- The body of the loop of `seed_dns_resolve_from_rows`.
unfoldable pub seed_dns_row : DomainQuarantine → String → String → ℕ → ℕ → DomainQuarantine × Bool
unfolding mark
seed_dns_row q now domain dns_fails passed =
    let old = stats_of q domain in
    let st : DomainStats = record old {
      dns_resolve_attempts = max old.dns_resolve_attempts dns_fails;
      passed = max old.passed passed;
    } in
    let q' = put_stats q domain st in
    if not (has_key domain q.quarantined)
      && eqb st.passed 0
      && leb q.config.dns_resolve_min_attempts st.dns_resolve_attempts
    then (
      mark q' now domain st (dns_failures st.dns_resolve_attempts) st.dns_resolve_attempts,
      true,
    )
    else (q', false)

abbrev pub Row : Type 0
Row = String × ℕ × ℕ

-- The loop of both methods over their rows; `newly` is built in front of the later names.
unfoldable pub seed_loop :
    (DomainQuarantine → String → String → ℕ → ℕ → DomainQuarantine × Bool)
    → DomainQuarantine
    → String
    → List Row
    → DomainQuarantine × List String
seed_loop body q now [] = (q, [])
seed_loop body q now ((domain, total, passed) ∷ rows) =
    let (q', marked) = body q now domain total passed in
    let (q'', newly) = seed_loop body q' now rows in (q'', if marked then domain ∷ newly else newly)

unfoldable pub seed_from_rows :
    DomainQuarantine → String → List Row → DomainQuarantine × List String
seed_from_rows q now rows = if not q.config.enabled then (q, []) else seed_loop seed_row q now rows

unfoldable pub seed_dns_resolve_from_rows :
    DomainQuarantine → String → List Row → DomainQuarantine × List String
seed_dns_resolve_from_rows q now rows =
    if not q.config.enabled then (q, []) else seed_loop seed_dns_row q now rows

abbrev pub working_probe_statuses : List String
working_probe_statuses = "PASS" ∷ "THROTTLED" ∷ []

-- The arguments of one call of `record`, with the time at which it is made.
pub record Probe : Type 0 where
  pub now : String
  pub domain : String
  pub passed : Bool
  pub status : Option String
  pub fail_phase : String
  pub error : String

unfoldable pub counts_pass : Probe → Bool
counts_pass p = elim p.status [ none ↦ p.passed | some s ↦ contains working_probe_statuses s ]

-- The branch of `record` for a probe that passed.
unfoldable pub record_pass : DomainQuarantine → Probe → DomainQuarantine × Option String
record_pass q p =
    let st = stats_of q p.domain in
    (put_stats q p.domain (record st { attempts = st.attempts + 1; passed = st.passed + 1 }), none)

-- The branch for a failed look-up of the name.
unfoldable pub record_dns_fail : DomainQuarantine → Probe → DomainQuarantine × Option String
unfolding mark
record_dns_fail q p =
    let old = stats_of q p.domain in
    let st : DomainStats = record old { dns_resolve_attempts = old.dns_resolve_attempts + 1 } in
    let q' = put_stats q p.domain st in
    if not (eqb st.passed 0)
    then (q', none)
    else if ltb st.dns_resolve_attempts q.config.dns_resolve_min_attempts
    then (q', none)
    else (
      mark q' p.now p.domain st (dns_failures st.dns_resolve_attempts) st.dns_resolve_attempts,
      some p.domain,
    )

-- The last branch: a failure that counts as an attempt.
unfoldable pub record_dpi_fail : DomainQuarantine → Probe → DomainQuarantine × Option String
unfolding mark
record_dpi_fail q p =
    let old = stats_of q p.domain in
    let st : DomainStats = record old { attempts = old.attempts + 1 } in
    let q' = put_stats q p.domain st in
    if ltb st.attempts q.config.min_attempts || not (eqb st.passed 0)
    then (q', none)
    else (mark q' p.now p.domain st (no_pass st.attempts) st.attempts, some p.domain)

-- `record`
unfoldable pub record_probe : DomainQuarantine → Probe → DomainQuarantine × Option String
unfolding record_pass record_dns_fail record_dpi_fail
record_probe q p =
    if not q.config.enabled || has_key p.domain q.quarantined
    then (q, none)
    else if counts_pass p
    then record_pass q p
    else if p.fail_phase == value dns_resolve
    then record_dns_fail q p
    else if is_infra_fail_phase p.fail_phase p.error
    then (q, none)
    else record_dpi_fail q p

-- A campaign's calls of `record`, in order.
unfoldable pub record_all : DomainQuarantine → List Probe → DomainQuarantine
record_all q [] = q
record_all q (p ∷ ps) = record_all (record_probe q p).0 ps

-- `exclude_domains`
unfoldable pub exclude_domains : DomainQuarantine → List String
exclude_domains q = keys q.quarantined

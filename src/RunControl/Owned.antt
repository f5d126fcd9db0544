-- ===== src/RunControl/Owned.antt =====
-- Who owns the lock of src/blockchecks/service/run_control.py while processes interleave.
use mathlib.Core.Path.{subst}
use blockcheck_s.Prelude.{
  ℕ, ◌<◌, true, false, eqb, ◌≡◌, ◌≢◌, refl, sym, ◌∙◌, ap, arith, if_split, Bool-cases, inl, inr,
  ◌⊎◌,
}
use blockcheck_s.Prelude.Int.{pos}
use blockcheck_s.RunControl.{Os, Lock, absent, holds, is_pid_alive, cmdline_looks_like_campaign}
use blockcheck_s.RunControl.Race.{
  Phase, outside, contended, last_attempt, removing, session, refused, finished, seen, Host,
  payload_of, moved,
}

-- Every process of the host is alive and looks like a campaign.
pub record AllLive (os : Os) : Type 0 where
  pub alive : (p : ℕ) → 0 < p → is_pid_alive os (pos p) ≡ true
  pub campaign : (p : ℕ) → cmdline_looks_like_campaign os (pos p) ≡ true

-- What a process may know: of a run that it has read, that its process is another one.
abbrev pub IsKnown : ℕ → Phase → Type 0
IsKnown p (seen info) = (q : ℕ) × (info.pid ≡ pos q) × (0 < q) × (eqb q p ≡ false)
IsKnown p removing = ⊥
IsKnown p outside = Unit
IsKnown p contended = Unit
IsKnown p last_attempt = Unit
IsKnown p session = Unit
IsKnown p refused = Unit
IsKnown p finished = Unit

-- The lock is missing and nobody is in a session, or one process alone is, and the lock is its own.
abbrev pub IsOwned : Host → Type 0
IsOwned h =
    ((h.lock ≡ absent) × ((p : ℕ) → h.phase p ≢ session))
    ⊎ ((q : ℕ) × (0 < q)
        × (h.lock ≡ holds (payload_of q))
        × (h.phase q ≡ session)
        × ((p : ℕ) → h.phase p ≡ session → p ≡ q))

pub record IsGood (h : Host) : Type 0 where
  pub known : (p : ℕ) → 0 < p → IsKnown p (h.phase p)
  pub owned : IsOwned h
  pub positive : h.phase 0 ≡ refused

pub the_same : (a b : ℕ) → eqb a b ≡ true → a ≡ b
the_same a b e = ground arith

pub contended-ne-session : contended ≢ session
contended-ne-session e = cc e

session-ne-finished : finished ≢ session
session-ne-finished e = cc e

module _ (h : Host) (p : ℕ) where
  pub quiet :
      (a b : Phase)
      → h.phase p ≡ a
      → a ≢ session
      → b ≢ session
      → IsOwned h
      → IsOwned (moved h p h.lock b)
  quiet a b at na nb (inl (free, nobody)) = inl (
    free,
    λ r e. elim (Bool-cases (eqb p r)) [
      | inl same ↦ nb (ground (arith, e, same))
      | inr other ↦ nobody r (ground (arith, e, other))
    ],
  )
  quiet a b at na nb (inr (q, big, l, s, alone)) = elim (Bool-cases (eqb p q)) [
    | inl same ↦ absurd (na (sym at ∙ ap h.phase (the_same p q same) ∙ s))
    | inr other ↦ inr (
      q,
      big,
      l,
      ground (arith, s, other),
      λ r e. elim (Bool-cases (eqb p r)) [
        | inl same ↦ absurd (nb (ground (arith, e, same)))
        | inr apart ↦ alone r (ground (arith, e, apart))
      ],
    )
  ]

  pub enter :
      0 < p → ((r : ℕ) → h.phase r ≢ session) → IsOwned (moved h p (holds (payload_of p)) session)
  enter big nobody = inr (
    p,
    big,
    refl,
    ground arith,
    λ r e. elim (Bool-cases (eqb p r)) [
      | inl same ↦ sym (the_same p r same)
      | inr other ↦ absurd (nobody r (ground (arith, e, other)))
    ],
  )

  pub leave : h.phase p ≡ session → IsOwned h → IsOwned (moved h p absent finished)
  leave at (inl (free, nobody)) = absurd (nobody p at)
  leave at (inr (q, big, l, s, alone)) = inl (
    refl,
    λ r e. elim (Bool-cases (eqb p r)) [
      | inl same ↦ session-ne-finished (ground (arith, e, same))
      | inr other ↦ ground (arith, alone r (ground (arith, e, other)), alone p at, other)
    ],
  )

  pub moved-IsKnown :
      (lock : Lock) (b : Phase)
      → IsKnown p b
      → ((r : ℕ) → 0 < r → IsKnown r (h.phase r))
      → (r : ℕ) → 0 < r
      → IsKnown r ((moved h p lock b).phase r)
  moved-IsKnown lock b kb k r big =
      if_split {A = Phase} (IsKnown r) (eqb p r) b (h.phase r)
        (λ same. subst (λ x. IsKnown x b) (the_same p r same) kb) (λ other. k r big)

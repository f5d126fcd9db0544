-- ===== src/Prelude/Int.antt =====
-- Signed integers over the native numbers, under the library's names.
use blockcheck_s.Prelude.{◌≤◌, arith, Bool, true, leb, ℕ, max, min}

-- `negsuc n` is -(n + 1).
pub data ℤ : Type 0 where
  pos : ℕ → ℤ
  negsuc : ℕ → ℤ

-- `max(lo, min(hi, n))` at `0 ≤ lo`, where a negative `n` gives `lo`.
abbrev pub clamp_ℤ : ℕ → ℕ → ℤ → ℕ
clamp_ℤ lo hi (pos n) = max lo (min hi n)
clamp_ℤ lo hi (negsuc n) = lo

-- `max(lo, n)` at `0 ≤ lo`.
abbrev pub at_least : ℕ → ℤ → ℕ
at_least lo (pos n) = max lo n
at_least lo (negsuc n) = lo

-- `n <= m` at `0 ≤ m`.
abbrev pub leb_ℤ : ℤ → ℕ → Bool
leb_ℤ (pos n) m = leb n m
leb_ℤ (negsuc n) m = true

pub at_least_lem : (lo : ℕ) (n : ℤ) → lo ≤ at_least lo n
at_least_lem lo n = ground arith

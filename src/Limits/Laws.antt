-- ===== src/Limits/Laws.antt =====
-- A lifetime that is accepted is positive, under both ceilings and exact.
use tokenzy.Prelude.{
  ℕ, zero, suc, ◌*◌, ◌/◌, ◌^◌, ◌≤◌, ◌<◌, ◌≡◌, inl, inr, min, arith, Bool-cases, leb, if◌then◌else◌,
}
use tokenzy.Prelude.Int.{ℤ, pos, negsuc}
use tokenzy.Ttl.{second, human}
use tokenzy.Ttl.Bounds.{mul_int64-small}
use tokenzy.Limits.{Limits, ok, ttl_at_most, new_limits, ceiling, check_seconds, validate_ttl}

pub ceiling-le : (a : ℕ) (l : Limits) → ceiling a l ≤ a
unfolding ceiling
ceiling-le a l = ground arith

-- The ceiling that a configured value leads to: the value itself where it lies in range, the
-- default where it is not positive, and the absolute ceiling above that.
pub ceiling-new_limits :
    (d a : ℕ) (configured : ℤ)
    → 0 < d
    → d ≤ a
    → ceiling a (new_limits (pos d) (pos a) configured)
      ≡ elim configured [ pos zero ↦ d | pos (suc n) ↦ min (suc n) a | negsuc n ↦ d ]
unfolding ceiling new_limits
ceiling-new_limits d a (pos zero) h k = ground arith
ceiling-new_limits d a (pos (suc n)) h k = ground arith
ceiling-new_limits d a (negsuc n) h k = ground arith

-- A lifetime of a second or more is accepted exactly when it fits under the ceiling, as its product
-- in nanoseconds, unwrapped; otherwise the answer names the ceiling in seconds and in words. The
-- absolute ceiling is an int64.
pub validate_ttl-exact :
    (a : ℕ) (l : Limits) (n : ℕ)
    → a < 2 ^ 63
    → validate_ttl a l (pos (suc n)) ≡ (
        if leb (suc n * second) (ceiling a l)
        then ok (pos (suc n * second))
        else ttl_at_most (ceiling a l / second) (human (pos (ceiling a l))))
unfolding validate_ttl check_seconds
validate_ttl-exact a l n h = elim (Bool-cases (leb (suc n * second) (ceiling a l))) [
  | inl fits ↦ ground (arith, ceiling-le a l, mul_int64-small (suc n) second)
  | inr large ↦ ground arith
]

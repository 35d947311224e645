-- ===== src/Limits.antt =====
-- The lifetime limits that internal/token/limits.go and internal/otp/otp.go define alike, over the
-- two ceilings in which they differ. A Duration is an int64 of nanoseconds.
pub mod Laws
use tokenzy.Prelude.{ℕ, zero, suc, ◌/◌, Bool, ◌||◌, ltb, ◌==◌, if◌then◌else◌}
use tokenzy.Prelude.Int.{ℤ, pos, negsuc, ltb_ℤ, leb_ℤ}
use tokenzy.Prelude.Str.{Str}
use tokenzy.Ttl.{second, mul_int64, human}

pub record Limits : Type 0 where
  pub max_ttl : ℤ

pub data TtlCheck : Type 0 where
  ok : ℤ → TtlCheck
  ttl_required : TtlCheck
  ttl_at_most : ℕ → Str → TtlCheck

-- `NewLimits`: a default for what is not positive, then a cap.
unfoldable pub new_limits : ℤ → ℤ → ℤ → Limits
new_limits default_max absolute_max max_ttl =
    let m = if leb_ℤ max_ttl (pos 0) then default_max else max_ttl in
    record { max_ttl = if ltb_ℤ absolute_max m then absolute_max else m }

-- `Ceiling`, a positive Duration.
unfoldable pub ceiling : ℕ → Limits → ℕ
ceiling absolute_max l = elim l.max_ttl [
  | pos n ↦ if ltb absolute_max n || n == 0 then absolute_max else n
  | negsuc n ↦ absolute_max
]

-- `ValidateTTL`, for an effective ceiling.
unfoldable pub check_seconds : ℕ → ℤ → TtlCheck
check_seconds c (negsuc n) = ttl_required
check_seconds c (pos zero) = ttl_required
check_seconds c (pos (suc n)) =
    if ltb (c / second) (suc n)
    then ttl_at_most (c / second) (human (pos c))
    else ok (mul_int64 (pos (suc n)) (pos second))

unfoldable pub validate_ttl : ℕ → Limits → ℤ → TtlCheck
validate_ttl absolute_max l seconds = check_seconds (ceiling absolute_max l) seconds

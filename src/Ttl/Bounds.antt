-- ===== src/Ttl/Bounds.antt =====
-- `Parse` accepts a lifetime exactly when it fits under the ceiling, and nothing wraps.
use tokenzy.Prelude.{
  ℕ, suc, ◌*◌, ◌/◌, ◌^◌, ◌≤◌, ◌<◌, ◌≡◌, ap, some, inl, inr, true, false, arith, leb, ltb,
  Bool-cases, if◌then◌else◌,
}
use tokenzy.Prelude.Int.{pos}
use tokenzy.Prelude.Str.{Str}
use tokenzy.Prelude.Text.{trim_space}
use tokenzy.Prelude.Decimal.{parse_int64}
use tokenzy.Ttl.{
  TimeUnit, second, mul_int64, lookup_unit, find_unit, human, parse, parse_amount, ok, err,
  lifetime_at_most,
}

pub mul_int64-small : (a b : ℕ) → a * b < 2 ^ 63 → mul_int64 (pos a) (pos b) ≡ pos (a * b)
unfolding mul_int64
mul_int64-small a b h = ground arith

mul_int64_twice :
    (n k : ℕ)
    → n * k * second < 2 ^ 63
    → mul_int64 (mul_int64 (pos n) (pos k)) (pos second) ≡ pos (n * k * second)
mul_int64_twice n k h = rw (mul_int64-small n k (omega arith)) (mul_int64-small (n * k) second h)

pub lookup_unit-positive : (s : Str) (u : TimeUnit) → lookup_unit s ≡ some u → 0 < u.seconds
unfolding lookup_unit find_unit
lookup_unit-positive s u h = ground arith

-- The test by division is the test by multiplication.
le_div : (n k q : ℕ) → 0 < k → n * k ≤ q → n ≤ q / k
le_div n k q h p = grind arith

le_mul : (n k q : ℕ) → 0 < k → n ≤ q / k → n * k ≤ q
le_mul n k q h p = grind arith

div_test :
    (n k c : ℕ) → 0 < k → ltb (c / second / k) n ≡ (if leb (n * k * second) c then false else true)
div_test n k c h = ground (arith, le_div n k (c / second), le_mul n k (c / second))

-- For a text that reads as a number of at least one and a known unit, `Parse` returns the product
-- in nanoseconds, unwrapped, if it is at most the ceiling, and the error that names the ceiling if
-- it is larger; the ceiling is an int64.
pub parse_exact :
    (value unit : Str) (n ceiling : ℕ) (u : TimeUnit)
    → parse_int64 (trim_space value) ≡ some (pos (suc n))
    → lookup_unit unit ≡ some u
    → ceiling < 2 ^ 63
    → parse value unit ceiling ≡ (
        if leb (suc n * u.seconds * second) ceiling
        then ok (pos (suc n * u.seconds * second))
        else err (lifetime_at_most (human (pos ceiling))))
unfolding parse parse_amount
parse_exact value unit n ceiling u hn hu hc =
    rw (hn, parse)
      (rw (hu, parse_amount)
        (rw (div_test (suc n) u.seconds ceiling (lookup_unit-positive unit u hu))
          (elim (Bool-cases (leb (suc n * u.seconds * second) ceiling)) [
            | inl fits ↦ rw fits (ap ok (mul_int64_twice (suc n) u.seconds (ground arith)))
            | inr large ↦ rw large
          ])))

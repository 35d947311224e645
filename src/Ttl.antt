-- ===== src/Ttl.antt =====
-- internal/ttl/ttl.go: the units of a lifetime and the conversion of "a number and a unit" into a
-- duration. A Duration is an int64 of nanoseconds; a ceiling is positive, hence a natural number.
pub mod Bounds
pub mod Words
use tokenzy.Prelude.{
  ℕ, zero, suc, ◌+◌, ◌-◌, ◌*◌, ◌/◌, ◌%◌, ◌^◌, Bool, true, false, not, Option, none, some, List, [],
  ◌∷◌, ◌++◌, ltb, ◌==◌, if◌then◌else◌,
}
use tokenzy.Prelude.Int.{ℤ, pos, negsuc, pos_part, neg_part}
use tokenzy.Prelude.Str.{Str, codes, str_eq}
use tokenzy.Prelude.Text.{trim_space}
use tokenzy.Prelude.Decimal.{show_nat, parse_int64}
use mathlib.Core.List.{reverse}

-- The int64 that a number stands for modulo 2^64.
abbrev pub to_int64 : ℕ → ℤ
to_int64 n = let r = n % 2 ^ 64 in if ltb r (2 ^ 63) then pos r else negsuc (2 ^ 64 - 1 - r)

-- `a * b` on int64, wrapping.
unfoldable pub mul_int64 : ℤ → ℤ → ℤ
mul_int64 a b = to_int64 (
    (pos_part a * pos_part b + neg_part a * neg_part b) % 2 ^ 64
    + (2 ^ 64 - (pos_part a * neg_part b + neg_part a * pos_part b) % 2 ^ 64))

-- time.Second and time.Hour, in nanoseconds.
abbrev pub second : ℕ
second = 1_000_000_000

abbrev pub hour : ℕ
hour = 3_600_000_000_000

pub record TimeUnit : Type 0 where
  pub name : Str
  pub singular : Str
  pub plural : Str
  pub seconds : ℕ

abbrev pub unit_second : TimeUnit
unit_second = record {
  name = codes "second";
  singular = codes "second";
  plural = codes "seconds";
  seconds = 1;
}

abbrev pub unit_minute : TimeUnit
unit_minute = record {
  name = codes "minute";
  singular = codes "minute";
  plural = codes "minutes";
  seconds = 60;
}

abbrev pub unit_hour : TimeUnit
unit_hour = record {
  name = codes "hour";
  singular = codes "hour";
  plural = codes "hours";
  seconds = 3600;
}

abbrev pub unit_day : TimeUnit
unit_day = record {
  name = codes "day";
  singular = codes "day";
  plural = codes "days";
  seconds = 86400;
}

abbrev pub units : List TimeUnit
units = unit_second ∷ unit_minute ∷ unit_hour ∷ unit_day ∷ []

unfoldable pub find_unit : Str → List TimeUnit → Option TimeUnit
find_unit n [] = none
find_unit n (u ∷ us) = if str_eq u.name n then some u else find_unit n us

unfoldable pub lookup_unit : Str → Option TimeUnit
lookup_unit n = find_unit n units

-- "1 day", "3 hours"
unfoldable pub phrase : TimeUnit → ℕ → Str
phrase u n = if n == 1 then codes "1 " ++ u.singular else show_nat n ++ (codes " " ++ u.plural)

-- The loop of `Human`, over the units from the largest down.
unfoldable pub human_loop : List TimeUnit → ℕ → Str
human_loop [] seconds = show_nat seconds ++ codes " seconds"
human_loop (u ∷ us) seconds =
    if not (seconds % u.seconds == 0) then human_loop us seconds else phrase u (seconds / u.seconds)

unfoldable pub human : ℤ → Str
human (negsuc n) = codes "0 seconds"
human (pos n) =
    if n / second == 0 then codes "0 seconds" else human_loop (reverse units) (n / second)

pub data TtlError : Type 0 where
  lifetime_required lifetime_unit : TtlError
  lifetime_at_most : Str → TtlError

pub data Parsed : Type 0 where
  ok : ℤ → Parsed
  err : TtlError → Parsed

-- `Parse` once the number has been read: positive, in a known unit, within the ceiling.
unfoldable pub parse_amount : ℤ → Str → ℕ → Parsed
parse_amount (negsuc n) unit ceiling = err lifetime_required
parse_amount (pos zero) unit ceiling = err lifetime_required
parse_amount (pos (suc n)) unit ceiling = elim (lookup_unit unit) [
  | none ↦ err lifetime_unit
  | some u ↦
      if ltb (ceiling / second / u.seconds) (suc n)
      then err (lifetime_at_most (human (pos ceiling)))
      else ok (mul_int64 (mul_int64 (pos (suc n)) (pos u.seconds)) (pos second))
]

unfoldable pub parse : Str → Str → ℕ → Parsed
parse value unit ceiling = elim (parse_int64 (trim_space value)) [
  | none ↦ err lifetime_required
  | some n ↦ parse_amount n unit ceiling
]

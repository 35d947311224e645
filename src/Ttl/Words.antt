-- ===== src/Ttl/Words.antt =====
-- What `Human` prints.
use tokenzy.Prelude.{
  ℕ, ◌*◌, ◌/◌, ◌%◌, ◌<◌, ◌≡◌, ◌≢◌, refl, some, inl, inr, arith, Bool-cases, ◌==◌, All,
}
use tokenzy.Prelude.Int.{pos}
use tokenzy.Prelude.Str.{str_eq}
use tokenzy.Ttl.{
  TimeUnit, second, units, unit_second, unit_minute, unit_hour, unit_day, lookup_unit, find_unit,
  human, human_loop, phrase,
}

-- The unit and the count that are printed: they make up the duration, and no larger unit does.
abbrev pub LargestExact : ℕ → TimeUnit → ℕ → Type 0
LargestExact s u k =
    (k * u.seconds ≡ s) × All (λ v. u.seconds < v.seconds → s % v.seconds ≢ 0) units

-- A duration of a second or more is printed as a count of the largest unit that divides its whole
-- seconds: the count times the unit gives the seconds, and no larger unit divides them.
pub human_exact :
    (n : ℕ)
    → 0 < n / second
    → (u : TimeUnit) × (k : ℕ) × (lookup_unit u.name ≡ some u)
      × LargestExact (n / second) u k
      × (human (pos n) ≡ phrase u k)
unfolding human human_loop lookup_unit find_unit str_eq
human_exact n h = elim (Bool-cases (n / second % 86400 == 0)) [
  | inl d ↦ (unit_day, n / second / 86400, refl, ground arith, ground arith)
  | inr nd ↦ elim (Bool-cases (n / second % 3600 == 0)) [
    | inl hr ↦ (unit_hour, n / second / 3600, refl, ground arith, ground arith)
    | inr nh ↦ elim (Bool-cases (n / second % 60 == 0)) [
      | inl m ↦ (unit_minute, n / second / 60, refl, ground arith, ground arith)
      | inr nm ↦ (unit_second, n / second / 1, refl, ground arith, ground arith)
    ]
  ]
]

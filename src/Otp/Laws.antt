-- ===== src/Otp/Laws.antt =====
-- Codes have the length that was asked for and consist of digits.
use tokenzy.Prelude.{
  ℕ, zero, suc, ◌+◌, ◌≤◌, ◌<◌, ◌≡◌, refl, ap, Option, some, [], ◌∷◌, arith, length, All,
}
use tokenzy.Prelude.Int.{ℤ, pos}
use tokenzy.Prelude.Str.{Str}
use tokenzy.Otp.{draw_digits, resolve_length, generate_code, ok}

abbrev pub Digits : Str → Type 0
Digits s = All (λ c. (48 ≤ c) × (c ≤ 57)) s

resolve_length_bounds :
    (requested : Option ℤ) (n : ℕ) → resolve_length requested ≡ some n → (4 ≤ n) × (n ≤ 10)
unfolding resolve_length
resolve_length_bounds requested n h = ground arith

draw_digits-Digits :
    (n i : ℕ) (draw : ℕ → Option ℕ)
    → ((j : ℕ) → (d : ℕ) × (draw j ≡ some d) × (d < 10))
    → (s : Str) × (draw_digits n i draw ≡ some s) × (length s ≡ n) × Digits s
unfolding draw_digits
draw_digits-Digits zero i draw h = ([], refl, refl, tt)
draw_digits-Digits (suc n) i draw h =
    let (d, e, b) = h i in
    let (s, t, l, g) = draw_digits-Digits n (suc i) draw h in
    ((48 + d) ∷ s, ground arith, ap suc l, ((omega arith, omega arith), g))

-- A length that `ResolveLength` accepts is between 4 and 10, the default is 6, and as long as the
-- random source yields digits, `GenerateCode` succeeds on it with a code of exactly that many
-- decimal digits.
pub generate_code-resolved :
    (requested : Option ℤ) (n : ℕ) (draw : ℕ → Option ℕ)
    → resolve_length requested ≡ some n
    → ((j : ℕ) → (d : ℕ) × (draw j ≡ some d) × (d < 10))
    → (4 ≤ n)
      × (n ≤ 10)
      × ((s : Str) × (generate_code (pos n) draw ≡ ok s) × (length s ≡ n) × Digits s)
unfolding generate_code
generate_code-resolved requested n draw h k =
    let (lo, hi) = resolve_length_bounds requested n h in
    let (s, e, l, g) = draw_digits-Digits n 0 draw k in (lo, hi, (s, ground arith, l, g))

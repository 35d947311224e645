-- ===== src/Prelude/Decimal.antt =====
-- strconv.FormatInt and strconv.ParseInt at base 10 and 64 bits.
use Prim.Native.Nat.{ℕ, zero, suc, ◌+◌, ◌-◌, ◌*◌, ◌/◌, ◌%◌, ◌^◌, ◌<◌}
use mathlib.Core.Path.{◌≡◌, refl, ◌∙◌}
use mathlib.Core.Logic.{inl, inr}
use mathlib.Core.Bool.{Bool, true, false, ◌&&◌}
use mathlib.Core.Option.{Option, none, some}
use mathlib.Core.List.{[], ◌∷◌, ◌++◌}
use native.Mathlib.Omega.{arith}
use tokenzy.Prelude.Tests.{ltb, leb, ◌==◌, if◌then◌else◌, Bool-cases}
use tokenzy.Prelude.Lists.{is_nil}
use tokenzy.Prelude.Int.{ℤ, pos, negsuc}
use tokenzy.Prelude.Str.{Str}

-- The first argument bounds the number of digits.
show_digits : ℕ → ℕ → Str
show_digits zero n = []
show_digits (suc f) n =
    let rest = show_digits f (n / 10) ++ ((48 + n % 10) ∷ []) in
    if ltb n 10 then (48 + n) ∷ [] else rest

unfoldable pub show_nat : ℕ → Str
unfolding show_digits
show_nat n = show_digits (suc n) n

unfoldable pub show_int : ℤ → Str
unfolding show_nat
show_int (pos n) = show_nat n
show_int (negsuc n) = b'-' ∷ show_nat (suc n)

abbrev pub is_digit : ℕ → Bool
is_digit c = leb 48 c && leb c 57

unfoldable pub read_digits : ℕ → Str → Option ℕ
read_digits acc [] = some acc
read_digits acc (c ∷ s) = if is_digit c then read_digits (acc * 10 + (c - 48)) s else none

unfoldable pub read_nat : Str → Option ℕ
unfolding read_digits
read_nat [] = none
read_nat (c ∷ s) = read_digits 0 (c ∷ s)

-- The range check: -2^63 to 2^63 - 1.
abbrev in_range : Bool → Option ℕ → Option ℤ
in_range negative none = none
in_range true (some zero) = some (pos 0)
in_range true (some (suc n)) = if ltb n (2 ^ 63) then some (negsuc n) else none
in_range false (some n) = if ltb n (2 ^ 63) then some (pos n) else none

unfoldable pub parse_int64 : Str → Option ℤ
unfolding read_nat
parse_int64 [] = none
parse_int64 (c ∷ s) =
    if c == b'+'
    then in_range false (read_nat s)
    else if c == b'-'
    then in_range true (read_nat s)
    else in_range false (read_nat (c ∷ s))

read_digits-append :
    (s t : Str) (acc n : ℕ)
    → read_digits acc s ≡ some n
    → read_digits acc (s ++ t) ≡ read_digits n t
unfolding read_digits
read_digits-append [] t acc n h = ground arith
read_digits-append (c ∷ s) t acc n h =
    ground (arith, read_digits-append s t (acc * 10 + (c - 48)) n)

last_digit : (n : ℕ) → read_digits (n / 10) ((48 + n % 10) ∷ []) ≡ some n
unfolding read_digits
last_digit n = ground arith

read_digits-show_digits : (f n : ℕ) → n < f → read_digits 0 (show_digits f n) ≡ some n
unfolding show_digits read_digits
read_digits-show_digits zero n h = absurd (omega arith)
read_digits-show_digits (suc f) n h = elim (Bool-cases (ltb n 10)) [
  | inl small ↦ rw small (ground arith)
  | inr large ↦ rw large (
      read_digits-append (show_digits f (n / 10)) ((48 + n % 10) ∷ []) 0 (n / 10)
        (read_digits-show_digits f (n / 10) (ground arith))
      ∙ last_digit n)
]

-- A printed number reads back.
pub read_nat-show_nat : (n : ℕ) → read_digits 0 (show_nat n) ≡ some n
unfolding show_nat
read_nat-show_nat n = read_digits-show_digits (suc n) n (omega arith)

-- A text of digits is read as the number that it shows, if that is below 2^63.
parse_int64-digits :
    (s : Str) (n : ℕ) → read_nat s ≡ some n → n < 2 ^ 63 → parse_int64 s ≡ some (pos n)
unfolding parse_int64
parse_int64-digits [] n h k = cc
parse_int64-digits (c ∷ s) n h k = ground arith

is_nil-snoc : (s : Str) (c : ℕ) → is_nil (s ++ c ∷ []) ≡ false
is_nil-snoc [] c = refl
is_nil-snoc (a ∷ s) c = refl

is_nil-show_nat : (n : ℕ) → is_nil (show_nat n) ≡ false
unfolding show_nat
is_nil-show_nat n = ground (arith, is_nil-snoc (show_digits n (n / 10)) (48 + n % 10))

read_nat-read_digits : (s : Str) → is_nil s ≡ false → read_nat s ≡ read_digits 0 s
unfolding read_nat
read_nat-read_digits [] h = cc
read_nat-read_digits (c ∷ s) h = refl

pub parse_int64-show_nat : (n : ℕ) → n < 2 ^ 63 → parse_int64 (show_nat n) ≡ some (pos n)
parse_int64-show_nat n k =
    parse_int64-digits (show_nat n) n
      (read_nat-read_digits (show_nat n) (is_nil-show_nat n) ∙ read_nat-show_nat n) k

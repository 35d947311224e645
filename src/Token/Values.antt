-- ===== src/Token/Values.antt =====
-- The values that `Generate` makes: their length and alphabet, what `Prefix` shows of one, and that
-- different random bytes make different tokens.
use tokenzy.Prelude.{
  ℕ, ◌*◌, ◌/◌, ◌%◌, ◌≤◌, ◌<◌, ◌≡◌, refl, sym, ◌∙◌, some, [], ◌∷◌, ◌++◌, arith, length, take, All,
  length-append, All-append, ◌⊎◌,
}
use tokenzy.Prelude.Str.{Str}
use tokenzy.Prelude.Text.{clip}
use tokenzy.Token.Generate.{hex, hex_digit, generate, prefix, value_prefix}

abbrev pub IsByte : ℕ → Type 0
IsByte b = b < 256

-- 0-9 and a-f
abbrev pub IsHex : ℕ → Type 0
IsHex c = ((48 ≤ c) × (c ≤ 57)) ⊎ ((97 ≤ c) × (c ≤ 102))

length-hex : (s : Str) → length (hex s) ≡ 2 * length s
unfolding hex
length-hex [] = refl
length-hex (b ∷ s) = omega (arith, length-hex s)

hex_digit-IsHex : (n : ℕ) → n < 16 → IsHex (hex_digit n)
unfolding hex_digit
hex_digit-IsHex n h = ground arith

hex_digit-injective : (m n : ℕ) → m < 16 → n < 16 → hex_digit m ≡ hex_digit n → m ≡ n
unfolding hex_digit
hex_digit-injective m n h k e = ground arith

hex-IsHex : (s : Str) → All IsByte s → All IsHex (hex s)
unfolding hex
hex-IsHex [] h = tt
hex-IsHex (b ∷ s) h = (
  hex_digit-IsHex (b / 16) (omega arith),
  (hex_digit-IsHex (b % 16) (omega arith), hex-IsHex s h.1),
)

hex-injective : (s t : Str) → All IsByte s → All IsByte t → hex s ≡ hex t → s ≡ t
unfolding hex
hex-injective [] [] h k e = refl
hex-injective [] (b ∷ t) h k e = cc
hex-injective (a ∷ s) [] h k e = cc
hex-injective (a ∷ s) (b ∷ t) h k e = ground (
  arith,
  hex_digit-injective (a / 16) (b / 16),
  hex_digit-injective (a % 16) (b % 16),
  hex-injective s t h.1 k.1,
)

append-injective :
    (s s' t t' : Str) → length s ≡ length s' → s ++ t ≡ s' ++ t' → (s ≡ s') × (t ≡ t')
append-injective [] [] t t' h e = (refl, e)
append-injective [] (b ∷ s') t t' h e = absurd (omega arith)
append-injective (a ∷ s) [] t t' h e = absurd (omega arith)
append-injective (a ∷ s) (b ∷ s') t t' h e = ground (arith, append-injective s s' t t')

-- From two random UUIDs of 16 bytes `Generate` makes "tkn_" and 64 lower-case hex digits, and what
-- `Prefix` shows of it is "tkn_" and the eight digits of the first four bytes.
pub generate-form :
    (a b : Str)
    → length a ≡ 16
    → length b ≡ 16
    → All IsByte a
    → All IsByte b
    → (v : Str) × (generate (some a) (some b) ≡ some (value_prefix ++ v))
      × (length v ≡ 64)
      × All IsHex v
      × (prefix (value_prefix ++ v) ≡ value_prefix ++ take 8 v)
unfolding generate prefix clip
generate-form a b la lb ha hb =
    let l : length (hex (a ++ b)) ≡ 64 = omega (arith, length-hex (a ++ b), length-append a b) in
    (hex (a ++ b), refl, l, hex-IsHex (a ++ b) (All-append IsByte a b ha hb), ground (arith, l))

-- Different pairs of UUIDs give different tokens.
pub generate-injective :
    (a b c d : Str)
    → length a ≡ 16
    → length c ≡ 16
    → All IsByte (a ++ b)
    → All IsByte (c ++ d)
    → generate (some a) (some b) ≡ generate (some c) (some d)
    → (a ≡ c) × (b ≡ d)
unfolding generate
generate-injective a b c d la lc h k e =
    append-injective a c b d (la ∙ sym lc) (hex-injective (a ++ b) (c ++ d) h k (ground arith))

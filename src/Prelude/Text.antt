-- ===== src/Prelude/Text.antt =====
-- The functions of Go's strings package that the program calls, over the bytes of UTF-8 texts.
use tokenzy.Prelude.Tests.{leb, ◌==◌, if◌then◌else◌}
use tokenzy.Prelude.Lists.{length, take, drop}
use tokenzy.Prelude.Str.{Str}
use Prim.Native.Nat.{ℕ, zero, suc}
use mathlib.Core.Bool.{Bool, ◌&&◌, ◌||◌}
use mathlib.Core.Option.{Option, none, some}
use mathlib.Core.List.{List, [], ◌∷◌, ◌++◌, reverse}

-- The white space of unicode.IsSpace with one, two and three bytes of UTF-8.
abbrev space_1 : ℕ → Bool
space_1 a = a == 32 || (leb 9 a && leb a 13)

abbrev space_2 : ℕ → ℕ → Bool
space_2 a b = a == 0xc2 && (b == 0x85 || b == 0xa0)

abbrev space_3 : ℕ → ℕ → ℕ → Bool
space_3 a b c =
    (a == 0xe1 && (b == 0x9a && c == 0x80))
    || (a == 0xe3 && (b == 0x80 && c == 0x80))
    || (a == 0xe2 && (b == 0x81 && c == 0x9f))
    || (a == 0xe2
        && (b == 0x80 && ((leb 0x80 c && leb c 0x8a) || (c == 0xa8 || (c == 0xa9 || c == 0xaf)))))

-- How many bytes of white space the text begins with, at most one character; and the same for a
-- reversed text.
unfoldable pub leading_space : Str → ℕ
leading_space [] = 0
leading_space (a ∷ []) = if space_1 a then 1 else 0
leading_space (a ∷ b ∷ []) = if space_1 a then 1 else if space_2 a b then 2 else 0
leading_space (a ∷ b ∷ c ∷ s) =
    if space_1 a then 1 else if space_2 a b then 2 else if space_3 a b c then 3 else 0

unfoldable pub trailing_space : Str → ℕ
trailing_space [] = 0
trailing_space (a ∷ []) = if space_1 a then 1 else 0
trailing_space (b ∷ a ∷ []) = if space_1 b then 1 else if space_2 a b then 2 else 0
trailing_space (c ∷ b ∷ a ∷ s) =
    if space_1 c then 1 else if space_2 b c then 2 else if space_3 a b c then 3 else 0

-- The first argument bounds the rounds; a round drops at least one byte.
unfoldable pub strip : ℕ → (Str → ℕ) → Str → Str
strip zero measure s = s
strip (suc f) measure s =
    let n = measure s in let rest = strip f measure (drop n s) in if n == 0 then s else rest

-- strings.TrimSpace
unfoldable pub trim_space : Str → Str
unfolding strip leading_space trailing_space
trim_space s =
    let t = strip (length s) leading_space s in
    reverse (strip (length t) trailing_space (reverse t))

-- strings.Cut at a separator of one byte; `none` where it does not occur.
unfoldable pub cut : ℕ → Str → Option (Str × Str)
cut sep [] = none
cut sep (c ∷ s) =
    if c == sep
    then some ([], s)
    else elim (cut sep s) [ none ↦ none | some (before, after) ↦ some (c ∷ before, after) ]

-- strings.Split at a separator of one byte: one piece more than there are separators.
unfoldable pub split_at : ℕ → Str → List Str
split_at sep [] = [] ∷ []
split_at sep (c ∷ s) =
    let pieces = split_at sep s in
    if c == sep then [] ∷ pieces else elim pieces [ [] ↦ (c ∷ []) ∷ [] | p ∷ ps ↦ (c ∷ p) ∷ ps ]

-- strings.Join with a separator of one byte.
unfoldable pub join_with : ℕ → List Str → Str
join_with sep [] = []
join_with sep (p ∷ []) = p
join_with sep (p ∷ q ∷ ps) = p ++ (sep ∷ join_with sep (q ∷ ps))

-- `value[:n]` behind the test `len(value) <= n`.
unfoldable pub clip : ℕ → Str → Str
clip n s = if leb (length s) n then s else take n s

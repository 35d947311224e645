-- ===== src/Token/Generate.antt =====
-- internal/token/generate.go. The random UUIDs come from outside: each is an argument, `none` when
-- the generator fails.
use tokenzy.Prelude.{
  ℕ, ◌+◌, ◌/◌, ◌%◌, Option, none, some, [], ◌∷◌, ◌++◌, ltb, is_nil, if◌then◌else◌,
}
use tokenzy.Prelude.Str.{Str, codes}
use tokenzy.Prelude.Text.{clip}

abbrev pub value_prefix : Str
value_prefix = codes "tkn_"

abbrev pub id_prefix : Str
id_prefix = codes "tok_"

abbrev pub prefix_len : ℕ
prefix_len = 12

-- hex.EncodeToString
unfoldable pub hex_digit : ℕ → ℕ
hex_digit n = if ltb n 10 then 48 + n else 87 + n

unfoldable pub hex : Str → Str
hex [] = []
hex (b ∷ s) = hex_digit (b / 16) ∷ hex_digit (b % 16) ∷ hex s

unfoldable pub generate : Option Str → Option Str → Option Str
generate none second = none
generate (some first) none = none
generate (some first) (some second) = some (value_prefix ++ hex (first ++ second))

unfoldable pub new_id : Option Str → Option Str
new_id none = none
new_id (some id) = some (id_prefix ++ hex id)

unfoldable pub prefix : Str → Str
prefix = clip prefix_len

-- The ellipsis, U+2026, in UTF-8.
abbrev ellipsis : Str
ellipsis = 0xe2 ∷ 0x80 ∷ 0xa6 ∷ []

unfoldable pub mask : Str → Str
mask value = if is_nil value then [] else prefix value ++ ellipsis

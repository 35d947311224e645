-- ===== src/Otp.antt =====
-- internal/otp/otp.go: the status of a one-time code, its bounds, and how a code is made. Random
-- draws come from outside: each is an argument, `none` when the generator fails.
pub mod Laws
use tokenzy.Prelude.{
  ℕ, zero, suc, ◌+◌, ◌*◌, ◌-◌, Bool, Option, none, some, List, [], ◌∷◌, ◌++◌, leb, ltb, ◌==◌, ◌||◌,
  is_some, is_nil, length, take, get_last?, if◌then◌else◌,
}
use tokenzy.Prelude.Int.{ℤ, pos, negsuc, ltb_ℤ}
use tokenzy.Prelude.Str.{Str, codes, str_eq}
use tokenzy.Model.{Otp}
use tokenzy.Token.Generate.{hex}
use tokenzy.Ttl
use tokenzy.Ttl.{hour, Parsed}
use tokenzy.Limits
use tokenzy.Limits.{Limits, TtlCheck}

abbrev pub id_prefix : Str
id_prefix = codes "otp_"

abbrev pub min_length : ℕ
min_length = 4

abbrev pub max_length : ℕ
max_length = 10

abbrev pub default_length : ℕ
default_length = 6

abbrev pub min_attempts : ℕ
min_attempts = 1

abbrev pub max_attempts : ℕ
max_attempts = 20

abbrev pub default_attempts : ℕ
default_attempts = 5

abbrev pub default_max_ttl : ℕ
default_max_ttl = hour

abbrev pub absolute_max_ttl : ℕ
absolute_max_ttl = 24 * hour

pub data Status : Type 0 where
  active consumed expired locked revoked : Status

abbrev pub status_name : Status → Str
status_name active = codes "active"
status_name consumed = codes "consumed"
status_name expired = codes "expired"
status_name locked = codes "locked"
status_name revoked = codes "revoked"

abbrev pub statuses : List Status
statuses = active ∷ consumed ∷ expired ∷ locked ∷ revoked ∷ []

unfoldable pub status_of : Otp → ℕ → Status
status_of o now =
    if is_some o.revoked_at
    then revoked
    else if is_some o.consumed_at
    then consumed
    else if leb o.expires_at now
    then expired
    else if leb o.max_attempts o.attempt_count
    then locked
    else active

unfoldable pub find_status : Str → List Status → Option Status
find_status s [] = none
find_status s (known ∷ l) = if str_eq s (status_name known) then some known else find_status s l

unfoldable pub valid_status : Str → Bool
valid_status s = is_some (find_status s statuses)

unfoldable pub new_id : Option Str → Option Str
new_id none = none
new_id (some buf) = some (id_prefix ++ hex buf)

pub data Code : Type 0 where
  ok : Str → Code
  bad_length : Code
  no_entropy : Code

-- The loop over the digits; the i-th draw of `rand.Int(rand.Reader, ten)` is `draw i`.
unfoldable pub draw_digits : ℕ → ℕ → (ℕ → Option ℕ) → Option Str
draw_digits zero i draw = some []
draw_digits (suc n) i draw = elim (draw i) [
  | none ↦ none
  | some d ↦ elim (draw_digits n (suc i) draw) [ none ↦ none | some s ↦ some ((48 + d) ∷ s) ]
]

unfoldable pub generate_code : ℤ → (ℕ → Option ℕ) → Code
generate_code (negsuc n) draw = bad_length
generate_code (pos n) draw =
    if ltb n min_length || ltb max_length n
    then bad_length
    else elim (draw_digits n 0 draw) [ none ↦ no_entropy | some s ↦ ok s ]

-- The bullet, U+2022, in UTF-8, once for each of n characters.
unfoldable pub bullets : ℕ → Str
bullets zero = []
bullets (suc n) = 0xe2 ∷ 0x80 ∷ 0xa2 ∷ bullets n

unfoldable pub mask : Str → Str
mask code = if is_nil code then [] else bullets (length code)

-- On the characters of the identifier, each with its bytes.
unfoldable pub mask_identifier : List Str → Str
mask_identifier [] = []
mask_identifier (a ∷ []) = bullets 1
mask_identifier (a ∷ b ∷ []) = bullets 2
mask_identifier (a ∷ b ∷ c ∷ runes) =
    a ++ (bullets (suc (length runes)) ++ elim (get_last? (c ∷ runes)) [ none ↦ [] | some z ↦ z ])

unfoldable pub new_limits : ℤ → Limits
new_limits = Limits.new_limits (pos default_max_ttl) (pos absolute_max_ttl)

unfoldable pub ceiling : Limits → ℕ
ceiling = Limits.ceiling absolute_max_ttl

unfoldable pub validate_ttl : Limits → ℤ → TtlCheck
validate_ttl = Limits.validate_ttl absolute_max_ttl

unfoldable pub parse_ttl : Limits → Str → Str → Parsed
parse_ttl l value unit = Ttl.parse value unit (ceiling l)

-- `none` is the error.
unfoldable pub resolve_length : Option ℤ → Option ℕ
resolve_length none = some default_length
resolve_length (some (negsuc n)) = none
resolve_length (some (pos n)) = if ltb n min_length || ltb max_length n then none else some n

unfoldable pub resolve_attempts : Option ℤ → Option ℕ
resolve_attempts none = some default_attempts
resolve_attempts (some (negsuc n)) = none
resolve_attempts (some (pos n)) = if ltb n min_attempts || ltb max_attempts n then none else some n

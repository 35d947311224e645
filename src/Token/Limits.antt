-- ===== src/Token/Limits.antt =====
-- internal/token/limits.go: the bounds on what a caller may ask for. JSON is that of encoding/json,
-- taken as a parameter: a validity test and the compaction of valid texts.
use tokenzy.Prelude.{
  ℕ, ◌*◌, Bool, true, Option, none, some, ltb, not, is_nil, length, if◌then◌else◌,
}
use tokenzy.Prelude.Int.{ℤ, pos, ltb_ℤ}
use tokenzy.Prelude.Str.{Str}
use tokenzy.Prelude.Text.{trim_space}
use tokenzy.Ttl
use tokenzy.Ttl.{hour, Parsed}
use tokenzy.Limits
use tokenzy.Limits.{Limits, TtlCheck}

-- 16 << 10
abbrev pub max_payload_bytes : ℕ
max_payload_bytes = 16 * 1024

abbrev pub default_max_ttl : ℕ
default_max_ttl = 90 * 24 * hour

abbrev pub absolute_max_ttl : ℕ
absolute_max_ttl = 10 * 365 * 24 * hour

unfoldable pub new_limits : ℤ → Limits
new_limits = Limits.new_limits (pos default_max_ttl) (pos absolute_max_ttl)

unfoldable pub ceiling : Limits → ℕ
ceiling = Limits.ceiling absolute_max_ttl

unfoldable pub validate_ttl : Limits → ℤ → TtlCheck
validate_ttl = Limits.validate_ttl absolute_max_ttl

unfoldable pub parse_ttl : Limits → Str → Str → Parsed
unfolding ceiling
parse_ttl l value unit = Ttl.parse value unit (ceiling l)

pub record Json : Type 0 where
  pub valid : Str → Bool
  pub compact : Str → Option Str

pub data PayloadCheck : Type 0 where
  ok : Str → PayloadCheck
  payload_required payload_invalid payload_too_large : PayloadCheck

unfoldable pub validate_payload : Json → Str → PayloadCheck
validate_payload json raw =
    if is_nil (trim_space raw)
    then payload_required
    else if not (json.valid raw)
    then payload_invalid
    else elim (json.compact raw) [
      | none ↦ payload_invalid
      | some s ↦ if ltb max_payload_bytes (length s) then payload_too_large else ok s
    ]

-- `nil` is no limit; a limit below one is refused.
unfoldable pub validate_max_uses : Option ℤ → Bool
validate_max_uses none = true
validate_max_uses (some v) = not (ltb_ℤ v (pos 1))

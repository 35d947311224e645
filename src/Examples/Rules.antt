-- ===== src/Examples/Rules.antt =====
-- The rules of internal/model, internal/ttl, internal/token and internal/otp at concrete inputs.
use tokenzy.Prelude.{◌≡◌, refl, Bool, true, [], ◌∷◌, arith, ◌*◌}
use tokenzy.Prelude.Int.{pos}
use tokenzy.Prelude.Str.{codes, str_eq}
use tokenzy.Prelude.Text.{trim_space, strip, leading_space, trailing_space, split_at}
use tokenzy.Prelude.Decimal.{parse_int64, read_nat, read_digits}
use tokenzy.Model.{valid_slug, all_bytes, slug_byte, is_lower_alnum}
use tokenzy.Ttl
use tokenzy.Ttl.{TimeUnit, second, hour, human, phrase, parse, lookup_unit, find_unit, unit_hour}
use tokenzy.Ttl.Bounds.{parse_exact}

trims : trim_space (codes " a b\n") ≡ codes "a b"
unfolding trim_space strip leading_space trailing_space
trims = refl

splits : split_at b',' (codes "a,,b") ≡ codes "a" ∷ [] ∷ codes "b" ∷ []
unfolding split_at
splits = refl

slugs : (valid_slug (codes "prod-1") ≡ true) × (valid_slug (codes "-prod") ≡ Bool.false)
unfolding valid_slug all_bytes slug_byte is_lower_alnum
slugs = (refl, refl)

parse_exact_example : parse (codes " 2") (codes "hour") (24 * hour) ≡ Ttl.ok (pos (2 * hour))
unfolding trim_space strip leading_space trailing_space parse_int64 read_nat read_digits lookup_unit
    find_unit str_eq
parse_exact_example =
    parse_exact (codes " 2") (codes "hour") 1 (24 * hour) unit_hour refl refl (omega arith)

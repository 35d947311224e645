-- ===== src/Model/Validate.antt =====
-- The validators of internal/model/model.go. The two regular expressions are written out as tests
-- on the bytes; `$` without the `m` flag matches at the end of the text only.
use tokenzy.Prelude.{ℕ, Bool, true, false, ◌&&◌, ◌||◌, not, [], ◌∷◌, leb, ◌==◌, is_nil, length}
use tokenzy.Prelude.Str.{Str}

unfoldable pub all_bytes : (ℕ → Bool) → Str → Bool
all_bytes p [] = true
all_bytes p (c ∷ s) = p c && all_bytes p s

-- [a-z0-9]
unfoldable pub is_lower_alnum : ℕ → Bool
is_lower_alnum c = (leb b'a' c && leb c b'z') || (leb b'0' c && leb c b'9')

-- [a-z0-9_-]
unfoldable pub slug_byte : ℕ → Bool
unfolding is_lower_alnum
slug_byte c = is_lower_alnum c || (c == b'_' || c == b'-')

-- [a-z0-9_]
unfoldable pub otp_type_byte : ℕ → Bool
unfolding is_lower_alnum
otp_type_byte c = is_lower_alnum c || c == b'_'

-- ^[a-z0-9][a-z0-9_-]{0,62}$
unfoldable pub valid_slug : Str → Bool
unfolding all_bytes slug_byte
valid_slug [] = false
valid_slug (c ∷ s) = is_lower_alnum c && (all_bytes slug_byte s && leb (length s) 62)

-- ^[a-z0-9_]{1,64}$
unfoldable pub valid_otp_type : Str → Bool
unfolding all_bytes otp_type_byte
valid_otp_type s = all_bytes otp_type_byte s && (leb 1 (length s) && leb (length s) 64)

abbrev pub max_identifier_len : ℕ
max_identifier_len = 256

unfoldable pub valid_identifier : Str → Bool
valid_identifier s = not (is_nil s) && leb (length s) max_identifier_len

unfoldable pub valid_username : Str → Bool
valid_username s = leb 3 (length s) && leb (length s) 64

abbrev pub min_password_len : ℕ
min_password_len = 8

unfoldable pub valid_password : Str → Bool
valid_password s = leb min_password_len (length s)

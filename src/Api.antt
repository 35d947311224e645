-- ===== src/Api.antt =====
-- internal/api: the handlers, from a decoded request in an environment to the answer. The routing,
-- the authentication context (Auth/Keys) and encoding/json around them are left out; times are
-- answered as unix seconds where the program prints RFC 3339.
pub mod Tokens
pub mod Otps
use tokenzy.Prelude.Str.{Str}

-- A status code with a body, or one of the errors.
pub data Reply {ℓ} (A : Type ℓ) : Type ℓ where
  created : A → Reply A
  done : A → Reply A
  no_content : Reply A
  invalid_request : Reply A
  unknown : Reply A
  internal_error : Reply A

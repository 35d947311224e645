-- ===== src/Webhook/Target.antt =====
-- internal/webhook/dispatch.go: what a new webhook is given. net/url's Parse is a parameter: the
-- scheme and the host of a URL, `none` for an error.
use tokenzy.Prelude.{Bool, false, not, ◌&&◌, Option, none, some, ◌++◌, is_nil, if◌then◌else◌}
use tokenzy.Prelude.Str.{Str, codes, str_eq}
use tokenzy.Prelude.Text.{trim_space}
use tokenzy.Token.Generate.{hex}

pub record Target : Type 0 where
  pub scheme : Str
  pub host : Str

unfoldable pub validate_url : (Str → Option Target) → Str → Bool
validate_url parse raw = elim (parse (trim_space raw)) [
  | none ↦ false
  | some t ↦
      if not (str_eq t.scheme (codes "http")) && not (str_eq t.scheme (codes "https"))
      then false
      else not (is_nil t.host)
]

-- `NewSecret`, on the random bytes.
unfoldable pub new_secret : Option Str → Option Str
new_secret none = none
new_secret (some buf) = some (codes "whsec_" ++ hex buf)

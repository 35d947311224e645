-- ===== src/Auth/Sessions.antt =====
-- internal/auth/session.go: logging in and out of the panel, and who is logged in. The random bytes
-- are an argument, `none` where the generator fails; a cookie is its value, empty where it is absent.
pub mod Laws
use tokenzy.Prelude.{ℕ, ◌+◌, ◌*◌, Bool, Option, none, some, List, ltb, is_nil, if◌then◌else◌}
use tokenzy.Prelude.Str.{Str}
use tokenzy.Token.Generate.{hex}
use tokenzy.Model.{User}
use tokenzy.Db.{Database, Result, ok, err, failure}
use tokenzy.Db.Users.{create_session, get_session, delete_session, get_user_by_id}

-- `SessionTTL`, in seconds.
abbrev pub session_ttl : ℕ
session_ttl = 7 * 24 * 3600

unfoldable pub new_session_id : Option Str → Option Str
new_session_id none = none
new_session_id (some buf) = some (hex buf)

-- `Start`: the value of the cookie that is set, and the error for none.
unfoldable pub start : ℕ → Option Str → ℕ → Database → Result Str × Database
start ts buf user d = elim (new_session_id buf) [
  | none ↦ (err failure, d)
  | some id ↦
      let (r, d') = create_session id user (ts + session_ttl) d in
      elim r [ err e ↦ (err e, d') | ok _ ↦ (ok id, d') ]
]

-- `End`, which clears the cookie.
unfoldable pub end : Str → Database → Database
end cookie d = if is_nil cookie then d else delete_session cookie d

-- `Current`
unfoldable pub current : ℕ → Str → Database → Option User × Database
current ts cookie d = if is_nil cookie then (none, d) else elim (get_session cookie d) [
  | err e ↦ (none, d)
  | ok s ↦
      if ltb s.expires_at ts
      then (none, delete_session s.id d)
      else elim (get_user_by_id s.user_id d) [ err e ↦ (none, d) | ok u ↦ (some u, d) ]
]

-- `RequireLogin`: on to the handler, or to the login page, with a status and where to go: in the
-- Location of a redirect, or for an htmx request in HX-Redirect.
pub data Gate : Type 0 where
  proceed : User → Gate
  redirect : ℕ → Str → Gate
  htmx_redirect : ℕ → Str → Gate

unfoldable pub require_login : ℕ → Str → Bool → Str → Database → Gate × Database
require_login ts login_path htmx cookie d =
    let (u, d') = current ts cookie d in
    elim u [
      | some u ↦ (proceed u, d')
      | none ↦ (if htmx then htmx_redirect 401 login_path else redirect 303 login_path, d')
    ]

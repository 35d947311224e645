-- ===== src/Db/Users.antt =====
-- internal/db/users.go: the panel's users and their sessions.
use tokenzy.Prelude.{
  ℕ, Bool, ◌||◌, none, some, [], ◌∷◌, ◌++◌, ltb, ◌==◌, is_some, is_none, length, if◌then◌else◌,
}
use tokenzy.Prelude.Str.{Str, str_eq}
use tokenzy.Prelude.Table.{select_row, count_where, update_where, delete_where, next_rowid}
use tokenzy.Model.{User, Session}
use tokenzy.Db.{Database, Result, ok, err, not_found, duplicate, failure}

unfoldable pub count_users : Database → ℕ
count_users d = length d.users

abbrev pub named : Str → User → Bool
named username u = str_eq u.username username

unfoldable pub create_user : ℕ → Str → Str → Database → Result User × Database
create_user ts username hash d =
    if is_some (select_row (named username) d.users)
    then (err duplicate, d)
    else let u : User = record {
      id = next_rowid (λ (u : User). u.id) d.users;
      username = username;
      password_hash = hash;
      created_at = ts;
    } in
      (ok u, record d { users = d.users ++ u ∷ [] })

unfoldable pub set_user_password : Str → Str → Database → Result (Unit {0}) × Database
set_user_password username hash d = (
  if count_where (named username) d.users == 0 then err not_found else ok tt,
  record d {
    users = update_where (named username) (λ (u : User). record u { password_hash = hash }) d.users;
  },
)

unfoldable pub get_user_by_username : Str → Database → Result User
get_user_by_username username d = elim (select_row (named username) d.users) [
  | none ↦ err not_found
  | some u ↦ ok u
]

unfoldable pub get_user_by_id : ℕ → Database → Result User
get_user_by_id id d = elim (select_row (λ (u : User). u.id == id) d.users) [
  | none ↦ err not_found
  | some u ↦ ok u
]

abbrev pub session_is : Str → Session → Bool
session_is id s = str_eq s.id id

-- The constraints: a new primary key and a user who exists.
unfoldable pub create_session : Str → ℕ → ℕ → Database → Result (Unit {0}) × Database
create_session id user expires_at d =
    if is_some (select_row (session_is id) d.sessions)
      || is_none (select_row (λ (u : User). u.id == user) d.users)
    then (err failure, d)
    else (
      ok tt,
      record d {
        sessions = d.sessions ++ record { id = id; user_id = user; expires_at = expires_at } ∷ [];
      },
    )

unfoldable pub get_session : Str → Database → Result Session
get_session id d = elim (select_row (session_is id) d.sessions) [
  | none ↦ err not_found
  | some s ↦ ok s
]

unfoldable pub delete_session : Str → Database → Database
delete_session id d = record d { sessions = delete_where (session_is id) d.sessions }

unfoldable pub delete_expired_sessions : ℕ → Database → Database
delete_expired_sessions ts d = record d {
  sessions = delete_where (λ (s : Session). ltb s.expires_at ts) d.sessions;
}

-- ===== src/Auth/Sessions/Laws.antt =====
-- How long a login lasts.
use tokenzy.Prelude.{
  ℕ, ◌+◌, ◌≡◌, ap, refl, true, false, none, some, List, [], ◌∷◌, ◌++◌, arith, is_nil, ltb, ◌==◌,
  if◌then◌else◌, Bool-cases, inl, inr,
}
use tokenzy.Prelude.Str.{Str, str_eq_refl}
use tokenzy.Prelude.Table.{select_row}
use tokenzy.Prelude.Table.Disjoint.{select_row-delete_where}
use tokenzy.Token.Generate.{hex}
use tokenzy.Model.{User, Session}
use tokenzy.Db.{Database, ok}
use tokenzy.Db.Users.{session_is, create_session, get_session, delete_session, get_user_by_id}
use tokenzy.Auth.Sessions.{session_ttl, new_session_id, start, end, current}

select_row-append_new :
    (id : Str) (s : Session) (rows : List Session)
    → select_row (session_is id) rows ≡ none
    → session_is id s ≡ true
    → select_row (session_is id) (rows ++ s ∷ []) ≡ some s
unfolding select_row
select_row-append_new id s [] h e = rw e refl
select_row-append_new id s (x ∷ rows) h e = ground (arith, select_row-append_new id s rows)

abbrev pub new_session : ℕ → Str → ℕ → Session
new_session ts id user = record { id = id; user_id = user; expires_at = ts + session_ttl }

stored :
    (expires_at user : ℕ) (id : Str) (u : User) (d : Database)
    → select_row (session_is id) d.sessions ≡ none
    → select_row (λ (v : User). v.id == user) d.users ≡ some u
    → create_session id user expires_at d ≡ (
      ok tt,
      record d {
        sessions = d.sessions ++ record { id = id; user_id = user; expires_at = expires_at } ∷ [];
      },
    )
unfolding create_session
stored expires_at user id u d h k = rw (h, create_session) (rw k refl)

started :
    (ts user : ℕ) (buf : Str) (u : User) (d : Database)
    → select_row (session_is (hex buf)) d.sessions ≡ none
    → select_row (λ (v : User). v.id == user) d.users ≡ some u
    → start ts (some buf) user d
      ≡ (ok (hex buf), record d { sessions = d.sessions ++ new_session ts (hex buf) user ∷ [] })
unfolding start new_session_id
started ts user buf u d h k =
    rw (stored (ts + session_ttl) user (hex buf) u d h k, start)
      (ap (λ q. (ok (hex buf), q.1)) (stored (ts + session_ttl) user (hex buf) u d h k))

-- `Current` for a cookie whose session is stored.
found :
    (now : ℕ) (id : Str) (s : Session) (u : User) (d : Database)
    → is_nil id ≡ false
    → select_row (session_is id) d.sessions ≡ some s
    → select_row (λ (v : User). v.id == s.user_id) d.users ≡ some u
    → current now id d
      ≡ (if ltb s.expires_at now then (none, delete_session s.id d) else (some u, d))
unfolding current get_session get_user_by_id
found now id s u d h e k = elim (Bool-cases (ltb s.expires_at now)) [
  | inl t ↦ rw (h, current) (rw (e, get_session) (rw t refl))
  | inr t ↦ rw (h, current) (rw (e, get_session) (rw t (rw (k, get_user_by_id) refl)))
]

gone : (now : ℕ) (id : Str) (d : Database) → (current now id (delete_session id d)).0 ≡ none
unfolding current get_session delete_session
gone now id d = elim (Bool-cases (is_nil id)) [
  | inl t ↦ rw (t, current) refl
  | inr t ↦
      rw (t, current)
        (rw
          (
            select_row-delete_where (session_is id) (session_is id) d.sessions (λ s e. e),
            get_session,
          )
          refl)
]

-- A login of an existing user under a fresh session id is recognised, as that user and without any
-- write, up to and including the second seven days later; after it the cookie is refused and the
-- session deleted, so that it stays refused at every time; and so it is after logging out.
pub current-start :
    (ts now later user : ℕ) (buf : Str) (u : User) (d : Database)
    → is_nil (hex buf) ≡ false
    → select_row (session_is (hex buf)) d.sessions ≡ none
    → select_row (λ (v : User). v.id == user) d.users ≡ some u
    → let (answer, d') = start ts (some buf) user d in
      (answer ≡ ok (hex buf))
      × (current now (hex buf) d' ≡ (
          if ltb (ts + session_ttl) now then (none, delete_session (hex buf) d') else (some u, d')))
      × ((current later (hex buf) (delete_session (hex buf) d')).0 ≡ none)
      × ((current later (hex buf) (end (hex buf) d')).0 ≡ none)
unfolding end
current-start ts now later user buf u d n h k = rw (started ts user buf u d h k) (
  refl,
  found now (hex buf) (new_session ts (hex buf) user) u _ n
      (select_row-append_new (hex buf) (new_session ts (hex buf) user) d.sessions h
        (str_eq_refl (hex buf)))
      k,
  gone later (hex buf) _,
  rw n (gone later (hex buf) _),
)

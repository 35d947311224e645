-- ===== src/Panel/Login/Entry.antt =====
-- Who gets past the gate of the panel.
use tokenzy.Prelude.{
  ℕ, ◌+◌, ◌≡◌, ap, sym, subst, Bool, true, false, Option, none, some, arith, is_nil, ltb, ◌==◌, [],
  ◌<◌, ◌⊎◌, inl, inr, refl, if◌then◌else◌,
}
use tokenzy.Prelude.Str.{Str, codes, str_eq}
use tokenzy.Prelude.Table.{select_row}
use tokenzy.Token.Generate.{hex}
use tokenzy.Model.{User, Session}
use tokenzy.Auth.Sessions.{session_ttl, start, current, proceed, require_login}
use tokenzy.Auth.Sessions.Laws.{current-start}
use tokenzy.Db.{Database, ok}
use tokenzy.Db.Users.{session_is, get_session, get_user_by_id, get_user_by_username, delete_session}
use tokenzy.Panel.{Request, unix}
use tokenzy.Panel.Login.{login_path, login_submit, ran, sent_to, htmx_sent_to, enter, protected}

module _ {A : Type 0} (r : Request) (cookie : Str) (handler : Request → Database → A × Database)
    (d : Database) where
  protected-refused :
      (current (unix r) cookie d).0 ≡ none
      → ((protected r cookie handler d).0 ≡ (
          if r.htmx then htmx_sent_to 401 (codes "/ui/login") else sent_to 303 (codes "/ui/login")))
        × ((protected r cookie handler d).1 ≡ (current (unix r) cookie d).1)
  unfolding protected require_login
  protected-refused h = ground arith

  require_login-current :
      (u : User)
      → current (unix r) cookie d ≡ (some u, d)
      → require_login (unix r) login_path r.htmx cookie d ≡ (proceed u, d)
  unfolding require_login
  require_login-current u h = ground arith

  protected-admitted :
      (u : User)
      → current (unix r) cookie d ≡ (some u, d)
      → protected r cookie handler d ≡ (
        ran (handler (record r { user = some u }) d).0,
        (handler (record r { user = some u }) d).1,
      )
  unfolding protected
  protected-admitted u h = ap (enter r handler) (require_login-current u h)

-- Looking up who is signed in writes no table but the sessions.
current-keeps :
    (ts : ℕ) (cookie : Str) (d : Database)
    → (current ts cookie d).1 ≡ record d { sessions = (current ts cookie d).1.sessions }
unfolding current delete_session
current-keeps ts cookie d = ground arith

-- The cookie stands for no user at a time: it is empty or missing, no session has it for its id, or
-- the one that has it is over or its user is gone.
abbrev pub IsAnonymous : ℕ → Str → Database → Type 0
IsAnonymous ts cookie d =
    (cookie ≡ [])
    ⊎ (select_row (λ (s : Session). str_eq s.id cookie) d.sessions ≡ none)
    ⊎ ((s : Session) × (select_row (λ (s : Session). str_eq s.id cookie) d.sessions ≡ some s)
        × ((s.expires_at < ts) ⊎ (select_row (λ (u : User). u.id == s.user_id) d.users ≡ none)))

current-IsAnonymous :
    (ts : ℕ) (cookie : Str) (d : Database)
    → IsAnonymous ts cookie d
    → (current ts cookie d).0 ≡ none
unfolding current get_session get_user_by_id
current-IsAnonymous ts cookie d (inl e) = rw e refl
current-IsAnonymous ts cookie d (inr (inl e)) = ground arith
current-IsAnonymous ts cookie d (inr (inr (s, e, inl over))) = ground arith
current-IsAnonymous ts cookie d (inr (inr (s, e, inr gone))) = ground arith

-- A request whose cookie is empty, is the id of no session, or is that of one which is over or whose
-- user is gone, does not reach the handler behind the gate, whatever the handler is. It is answered
-- with a redirect to "/ui/login", with status 303, or with 401 and the address in HX-Redirect where
-- htmx asks; and of the database only the sessions can change.
pub protected-anonymous :
    {A : Type 0} (r : Request) (cookie : Str) (handler : Request → Database → A × Database)
    (d : Database)
    → IsAnonymous (unix r) cookie d
    → ((protected r cookie handler d).0 ≡ (
        if r.htmx then htmx_sent_to 401 (codes "/ui/login") else sent_to 303 (codes "/ui/login")))
      × ((protected r cookie handler d).1
          ≡ record d { sessions = (protected r cookie handler d).1.sessions })
protected-anonymous r cookie handler d h =
    let (refused, kept) =
      protected-refused r cookie handler d (current-IsAnonymous (unix r) cookie d h) in
    (
      refused,
      subst (λ (e : Database). e ≡ record d { sessions = e.sessions }) (sym kept)
          (current-keeps (unix r) cookie d),
    )

login_submit-start :
    (verify : Str → Str → Option Bool) (ts : ℕ) (buf username password : Str) (d : Database)
    (u : User)
    → get_user_by_username username d ≡ ok u
    → verify password u.password_hash ≡ some true
    → (start ts (some buf) u.id d).0 ≡ ok (hex buf)
    → let s = login_submit verify ts (some buf) username password d in
      (s.cookie ≡ some (hex buf)) × (s.db ≡ (start ts (some buf) u.id d).1)
unfolding login_submit
login_submit-start verify ts buf username password d u h k l = ground arith

-- Signing in with the right password of an existing user, under a fresh session id, sets that id as
-- the cookie, and for seven days a request with the cookie passes the gate: the handler runs on the
-- database that the sign-in left, with the user in its context.
pub protected-login_submit :
    {A : Type 0} (verify : Str → Str → Option Bool) (ts : ℕ) (buf username password : Str)
    (d : Database) (u : User) (r : Request) (handler : Request → Database → A × Database)
    → get_user_by_username username d ≡ ok u
    → verify password u.password_hash ≡ some true
    → is_nil (hex buf) ≡ false
    → select_row (session_is (hex buf)) d.sessions ≡ none
    → select_row (λ (v : User). v.id == u.id) d.users ≡ some u
    → ltb (ts + session_ttl) (unix r) ≡ false
    → let s = login_submit verify ts (some buf) username password d in
      let (a, d') = handler (record r { user = some u }) s.db in
      (s.cookie ≡ some (hex buf)) × (protected r (hex buf) handler s.db ≡ (ran a, d'))
protected-login_submit verify ts buf username password d u r handler h k n f p t =
    let (answer, seen, later, out) = current-start ts (unix r) 0 u.id buf u d n f p in
    let (cookie, left) = login_submit-start verify ts buf username password d u h k answer in
    (
      cookie,
      protected-admitted r (hex buf) handler
          (login_submit verify ts (some buf) username password d).db u
          (subst (λ (e : Database). current (unix r) (hex buf) e ≡ (some u, e)) (sym left)
            (rw t at seen)),
    )

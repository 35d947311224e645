-- ===== src/Server/Accounts/Kept.antt =====
-- What becomes of the accounts.
use tokenzy.Prelude.{
  ℕ, ◌≡◌, refl, sym, subst, Bool, Option-cases, true, false, not, Option, none, some, List, [], ◌∷◌,
  ◌++◌, ◌&&◌, ◌||◌, arith, is_nil, inl, inr, if◌then◌else◌,
}
use tokenzy.Prelude.Str.{Str, str_eq_refl}
use tokenzy.Prelude.Text.{trim_space}
use tokenzy.Prelude.Table.{select_row, next_rowid}
use tokenzy.Model.{User, valid_username, valid_password}
use tokenzy.Db.{Database, ok, err, not_found}
use tokenzy.Db.Users.{named, create_user, get_user_by_username}
use tokenzy.Server.Variables.{Variables, get_env}
use tokenzy.Server.Accounts.{
  env_admin_username, admin_password_from_env, Bootstrap, nothing_configured, already_exists,
  created, unreadable, incomplete, invalid_username, invalid_password, broken, ensure_admin,
  bootstrap_admin,
}

-- What a start leaves of the accounts, by how it went: nothing is touched unless an account is made,
-- and then the new row comes behind the old ones.
abbrev pub Leaves : (Str → Option Str) → Str → Str → Database → Bootstrap → Database → Type 0
Leaves hash username password d created d' =
    (u : User) × (d'.users ≡ d.users ++ (u ∷ []))
    × (hash password ≡ some u.password_hash)
    × (get_user_by_username username d ≡ err not_found)
    × (get_user_by_username username d' ≡ ok u)
Leaves hash username password d already_exists d' =
    (u : User) × (get_user_by_username username d ≡ ok u) × (d' ≡ d)
Leaves hash username password d nothing_configured d' = d' ≡ d
Leaves hash username password d unreadable d' = d' ≡ d
Leaves hash username password d incomplete d' = d' ≡ d
Leaves hash username password d invalid_username d' = d' ≡ d
Leaves hash username password d invalid_password d' = d' ≡ d
Leaves hash username password d broken d' = d' ≡ d

select_row-last :
    (p : User → Bool) (us : List User) (u : User)
    → select_row p us ≡ none
    → p u ≡ true
    → select_row p (us ++ (u ∷ [])) ≡ some u
unfolding select_row
select_row-last p [] u h k = rw k refl
select_row-last p (x ∷ us) u h k = ground (arith, select_row-last p us u)

module _ (hash : Str → Option Str) (ts : ℕ) (username password : Str) (d : Database) where
  abbrev new_user : Str → User
  new_user h = record {
    id = next_rowid (λ (u : User). u.id) d.users;
    username = username;
    password_hash = h;
    created_at = ts;
  }

  abbrev with_user : Str → Database
  with_user h = record d { users = d.users ++ (new_user h ∷ []) }

  ensure_admin-present :
      (u : User)
      → get_user_by_username username d ≡ ok u
      → ensure_admin hash ts username password d ≡ (already_exists, d)
  unfolding ensure_admin
  ensure_admin-present u h = ground arith

  create_user-new :
      (h : Str)
      → select_row (named username) d.users ≡ none
      → create_user ts username h d ≡ (ok (new_user h), with_user h)
  unfolding create_user
  create_user-new h absent = rw (absent, create_user) refl

  ensure_admin-broken :
      get_user_by_username username d ≡ err not_found
      → hash password ≡ none
      → ensure_admin hash ts username password d ≡ (broken, d)
  unfolding ensure_admin
  ensure_admin-broken absent bad = ground arith

  ensure_admin-created :
      (h : Str)
      → get_user_by_username username d ≡ err not_found
      → hash password ≡ some h
      → create_user ts username h d ≡ (ok (new_user h), with_user h)
      → ensure_admin hash ts username password d ≡ (created, with_user h)
  unfolding ensure_admin
  ensure_admin-created h absent good made = ground arith

  get_user-none :
      select_row (named username) d.users ≡ none → get_user_by_username username d ≡ err not_found
  unfolding get_user_by_username
  get_user-none h = rw (h, get_user_by_username) refl

  get_user-some :
      (u : User)
      → select_row (named username) d.users ≡ some u
      → get_user_by_username username d ≡ ok u
  unfolding get_user_by_username
  get_user-some u h = rw (h, get_user_by_username) refl

  get_user-with_user :
      (h : Str)
      → select_row (named username) d.users ≡ none
      → get_user_by_username username (with_user h) ≡ ok (new_user h)
  unfolding get_user_by_username
  get_user-with_user h absent =
      rw
        (
          select_row-last (named username) d.users (new_user h) absent (str_eq_refl username),
          get_user_by_username,
        )
        refl

  ensure_admin-Leaves :
      Leaves hash username password d
        (ensure_admin hash ts username password d).0
        (ensure_admin hash ts username password d).1
  ensure_admin-Leaves = elim (Option-cases (select_row (named username) d.users)) [
    | inl absent ↦ elim (Option-cases (hash password)) [
      | inl bad ↦
          subst (λ (x : Bootstrap × Database). Leaves hash username password d x.0 x.1)
            (sym (ensure_admin-broken (get_user-none absent) bad)) refl
      | inr (h, good) ↦
          subst (λ (x : Bootstrap × Database). Leaves hash username password d x.0 x.1)
            (sym (ensure_admin-created h (get_user-none absent) good (create_user-new h absent)))
            (new_user h, refl, good, get_user-none absent, get_user-with_user h absent)
    ]
    | inr (u, there) ↦
        subst (λ (x : Bootstrap × Database). Leaves hash username password d x.0 x.1)
          (sym (ensure_admin-present u (get_user-some u there))) (u, get_user-some u there, refl)
  ]

abbrev LeavesBoth : (Str → Option Str) → Str → Str → Database → Bootstrap × Database → Type 0
LeavesBoth hash username password d x = Leaves hash username password d x.0 x.1

-- The four checks in front of the account, whatever they find.
LeavesBoth-checks :
    (hash : Str → Option Str) (username password : Str) (d : Database) (x : Bootstrap × Database)
    (b c e f : Bool)
    → LeavesBoth hash username password d x
    → LeavesBoth hash username password d (
        if b
        then (nothing_configured, d)
        else if c
        then (incomplete, d)
        else if e
        then (invalid_username, d)
        else if f
        then (invalid_password, d)
        else x)
LeavesBoth-checks hash username password d x true c e f h = refl
LeavesBoth-checks hash username password d x false true e f h = refl
LeavesBoth-checks hash username password d x false false true f h = refl
LeavesBoth-checks hash username password d x false false false true h = refl
LeavesBoth-checks hash username password d x false false false false h = h

-- What the environment configures.
abbrev pub password_in : (Str → Option Str) → Variables → Str
password_in read_file env = elim (admin_password_from_env read_file env) [ none ↦ [] | some p ↦ p ]

bootstrap-cases :
    (read_file hash : Str → Option Str) (ts : ℕ) (env : Variables) (d : Database)
    (read : Option Str)
    → admin_password_from_env read_file env ≡ read
    → LeavesBoth hash
        (trim_space (get_env env_admin_username env))
        (elim read [ none ↦ [] | some p ↦ p ])
        d
        (bootstrap_admin read_file hash ts env d)
unfolding bootstrap_admin
bootstrap-cases read_file hash ts env d none h = rw (h, bootstrap_admin) refl
bootstrap-cases read_file hash ts env d (some p) h =
    let name = trim_space (get_env env_admin_username env) in
    rw (h, bootstrap_admin)
      (LeavesBoth-checks hash name p d (ensure_admin hash ts name p d) (is_nil name && is_nil p)
        (is_nil name || is_nil p) (not (valid_username name)) (not (valid_password p))
        (ensure_admin-Leaves hash ts name p d))

-- What a start does to the accounts. It makes one exactly when it says so: then no account had the
-- configured name, the table has one row more, behind the others, and that row is found under the
-- name, with a hash of the configured password. If it finds the account, it changes nothing, also not
-- the password, and every other outcome leaves the whole database as it was.
pub bootstrap_admin-Leaves :
    (read_file hash : Str → Option Str) (ts : ℕ) (env : Variables) (d : Database)
    → let (outcome, d') = bootstrap_admin read_file hash ts env d in
      Leaves hash
        (trim_space (get_env env_admin_username env))
        (password_in read_file env)
        d
        outcome
        d'
bootstrap_admin-Leaves read_file hash ts env d = bootstrap-cases read_file hash ts env d _ refl

-- ===== src/Panel/Login.antt =====
-- internal/ui/ui.go: signing in and out, and the gate in front of the other pages. How a password is
-- checked is an argument, `none` for a hash that is malformed.
pub mod Entry
use tokenzy.Prelude.{ℕ, Bool, true, false, Option, none, some, [], ◌==◌, if◌then◌else◌}
use tokenzy.Prelude.Str.{Str, codes}
use tokenzy.Model.{User}
use tokenzy.Auth.Sessions.{start, end, current, Gate, proceed, htmx_redirect, require_login}
use tokenzy.Auth.Sessions as Sessions
use tokenzy.Db.{Database, ok, err, not_found}
use tokenzy.Db.Users.{count_users, get_user_by_username}
use tokenzy.Panel.{Request, unix, Answer, page, redirect, internal_error, Layout, layout_for}

pub record LoginView : Type 0 where
  pub layout : Layout
  pub username : Str
  pub refused : Bool
  pub no_users : Bool

-- The layout of the page has a title and no more.
abbrev pub login_view : Str → Bool → Database → LoginView
login_view username refused d = record {
  layout = record {
    title = codes "Sign in";
    user = [];
    project = none;
    env = none;
    envs = [];
    tab = [];
  };
  username = username;
  refused = refused;
  no_users = count_users d == 0;
}

abbrev pub login_path : Str
login_path = codes "/ui/login"

unfoldable pub login_form : ℕ → Str → Database → Answer LoginView × Database
login_form ts cookie d =
    let (u, d') = current ts cookie d in
    elim u [
      | some u ↦ (redirect (codes "/ui/projects"), d')
      | none ↦ (page 200 (codes "login.html") (login_view [] false d'), d')
    ]

-- What a sign-in answers, and the cookie that it sets.
pub record SignIn : Type 0 where
  pub answer : Answer LoginView
  pub cookie : Option Str
  pub db : Database

-- The error of a malformed hash is logged, and the answer is that of a wrong password.
unfoldable pub login_submit :
    (Str → Str → Option Bool) → ℕ → Option Str → Str → Str → Database → SignIn
login_submit verify ts buf username password d =
    let fail : SignIn = record {
      answer = page 401 (codes "login.html") (login_view username true d);
      cookie = none;
      db = d;
    } in
    elim (get_user_by_username username d) [
      | err not_found ↦ fail
      | err _ ↦ record { answer = internal_error; cookie = none; db = d }
      | ok u ↦ elim (verify password u.password_hash) [
        | some true ↦
            let (res, d') = start ts buf u.id d in
            elim res [
              | err e ↦ record { answer = internal_error; cookie = none; db = d' }
              | ok id ↦ record {
                answer = redirect (codes "/ui/projects");
                cookie = some id;
                db = d';
              }
            ]
        | _ ↦ fail
      ]
    ]

unfoldable pub logout : Str → Database → Answer LoginView × Database
logout cookie d = (redirect login_path, end cookie d)

-- What comes of a request to a protected page: the handler ran, or the answer is a redirect, with
-- its status and where to go.
pub data Entered {ℓ} (A : Type ℓ) : Type ℓ where
  ran : A → Entered A
  sent_to : ℕ → Str → Entered A
  htmx_sent_to : ℕ → Str → Entered A

-- The mount of the protected pages: a handler runs only behind the gate, with the user in its
-- context.
abbrev pub enter {ℓ} :
    {A : Type ℓ}
    → Request
    → (Request → Database → A × Database)
    → Gate × Database
    → Entered A × Database
enter r handler (proceed u, d) = let (a, d') = handler (record r { user = some u }) d in (ran a, d')
enter r handler (Sessions.redirect status location, d) = (sent_to status location, d)
enter r handler (htmx_redirect status location, d) = (htmx_sent_to status location, d)

unfoldable pub protected {ℓ} :
    {A : Type ℓ}
    → Request
    → Str
    → (Request → Database → A × Database)
    → Database
    → Entered A × Database
protected r cookie handler d = enter r handler (require_login (unix r) login_path r.htmx cookie d)

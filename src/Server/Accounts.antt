-- ===== src/Server/Accounts.antt =====
-- main.go: the account from the environment (`bootstrapAdmin`) and the one from the command line
-- (`cmdAdminCreate`). How a password is hashed is an argument, `none` where the salt cannot be drawn;
-- so is what the files and the terminal hold.
pub mod Kept
use tokenzy.Prelude.{
  ℕ, Bool, true, false, not, ◌&&◌, ◌||◌, Option, none, some, List, [], ◌∷◌, ◌==◌, is_nil,
  if◌then◌else◌,
}
use mathlib.Core.List.{reverse}
use tokenzy.Prelude.Str.{Str, codes, str_eq}
use tokenzy.Prelude.Text.{trim_space}
use tokenzy.Model.{valid_username, valid_password}
use tokenzy.Db.{Database, ok, err, not_found, duplicate}
use tokenzy.Db.Users.{create_user, set_user_password, get_user_by_username}
use tokenzy.Server.Variables.{Variables, get_env}

abbrev pub env_admin_username : Str
env_admin_username = codes "TOKENZY_ADMIN_USERNAME"

abbrev pub env_admin_password : Str
env_admin_password = codes "TOKENZY_ADMIN_PASSWORD"

abbrev pub env_admin_password_file : Str
env_admin_password_file = codes "TOKENZY_ADMIN_PASSWORD_FILE"

-- strings.TrimRight with "\r\n"
abbrev drop_breaks : Str → Str
drop_breaks [] = []
drop_breaks (c ∷ s) = let rest = drop_breaks s in if c == 10 || c == 13 then rest else c ∷ s

unfoldable pub trim_breaks : Str → Str
trim_breaks s = reverse (drop_breaks (reverse s))

-- `adminPasswordFromEnv`; the argument is os.ReadFile, `none` for an error.
unfoldable pub admin_password_from_env : (Str → Option Str) → Variables → Option Str
admin_password_from_env read_file env =
    let path = trim_space (get_env env_admin_password_file env) in
    if is_nil path
    then some (get_env env_admin_password env)
    else elim (read_file path) [ none ↦ none | some text ↦ some (trim_breaks text) ]

-- How a start goes on: what was done, or the error that stops it.
pub data Bootstrap : Type 0 where
  nothing_configured already_exists created : Bootstrap
  unreadable incomplete invalid_username invalid_password broken : Bootstrap

-- The part of `bootstrapAdmin` behind the checks.
unfoldable pub ensure_admin : (Str → Option Str) → ℕ → Str → Str → Database → Bootstrap × Database
ensure_admin hash ts username password d = elim (get_user_by_username username d) [
  | ok u ↦ (already_exists, d)
  | err not_found ↦ elim (hash password) [
    | none ↦ (broken, d)
    | some h ↦
        let (res, d') = create_user ts username h d in
        elim res [
          | ok u ↦ (created, d')
          | err duplicate ↦ (already_exists, d')
          | err _ ↦ (broken, d')
        ]
  ]
  | err _ ↦ (broken, d)
]

unfoldable pub bootstrap_admin :
    (Str → Option Str) → (Str → Option Str) → ℕ → Variables → Database → Bootstrap × Database
bootstrap_admin read_file hash ts env d =
    let username = trim_space (get_env env_admin_username env) in
    elim (admin_password_from_env read_file env) [
      | none ↦ (unreadable, d)
      | some password ↦
          if is_nil username && is_nil password
          then (nothing_configured, d)
          else if is_nil username || is_nil password
          then (incomplete, d)
          else if not (valid_username username)
          then (invalid_username, d)
          else if not (valid_password password)
          then (invalid_password, d)
          else ensure_admin hash ts username password d
    ]

-- What standard input gives: a line through a pipe (`none` for an error with no text read), or the
-- two prompts of a terminal.
pub data Input : Type 0 where
  piped : Option Str → Input
  typed : Option Str → Option Str → Input

-- `readPassword`; `none` is an error.
unfoldable pub read_password : Input → Option Str
read_password (piped none) = none
read_password (piped (some line)) = some (trim_breaks line)
read_password (typed none second) = none
read_password (typed (some first) none) = none
read_password (typed (some first) (some second)) = if str_eq first second then some first else none

pub data Creation : Type 0 where
  account_created password_updated : Creation
  bad_username unread bad_password exists hash_failed write_failed : Creation

-- `cmdAdminCreate`, on the flags -username and -reset, behind the opening of the database.
unfoldable pub cmd_admin_create :
    (Str → Option Str) → ℕ → Str → Bool → Input → Database → Creation × Database
cmd_admin_create hash ts raw_name reset input d =
    let name = trim_space raw_name in
    if not (valid_username name) then (bad_username, d) else elim (read_password input) [
      | none ↦ (unread, d)
      | some password ↦
          if not (valid_password password) then (bad_password, d) else elim (hash password) [
            | none ↦ (hash_failed, d)
            | some h ↦
                let (res, d') = create_user ts name h d in
                elim res [
                  | ok u ↦ (account_created, d')
                  | err duplicate ↦
                      if not reset
                      then (exists, d')
                      else let (updated, d'') = set_user_password name h d' in
                        elim updated [
                          | ok _ ↦ (password_updated, d'')
                          | err _ ↦ (write_failed, d'')
                        ]
                  | err _ ↦ (write_failed, d')
                ]
          ]
    ]

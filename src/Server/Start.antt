-- ===== src/Server/Start.antt =====
-- main.go: what `cmdServe` does before it listens, `seedDemoData`, the scopes that `buildHandler`
-- puts in front of the API, and the session janitor.
pub mod Scopes
use tokenzy.Prelude.{ℕ, Bool, true, false, Option, none, some, List, [], ◌∷◌, if◌then◌else◌}
use tokenzy.Prelude.Int.{ℤ}
use tokenzy.Prelude.Str.{Str, codes}
use tokenzy.Limits.{Limits}
use tokenzy.Cleanup.{Config}
use tokenzy.Model.{scope_consume, scope_write, scope_admin}
use tokenzy.Auth.Keys.{Verdict, require}
use tokenzy.Db.{Database}
use tokenzy.Db.Users.{delete_expired_sessions}
use tokenzy.Db.Migrate.{Migration, Applied, Outcome, done, failed, migrate, seed}
use tokenzy.Server.Variables.{Variables, env_bool}
use tokenzy.Server.Settings.{token_limits, otp_limits, cleanup_config}
use tokenzy.Server.Accounts.{
  Bootstrap, nothing_configured, already_exists, created, bootstrap_admin,
}

abbrev pub env_seed_data : Str
env_seed_data = codes "TOKENZY_SEED_DATA"

-- `seedDemoData`; `none` is an error.
unfoldable pub seed_demo_data :
    (Str → Database → Option Database)
    → (Database → ℕ)
    → Str
    → Variables
    → Database
    → Option Database
seed_demo_data exec count_projects script env d = elim (env_bool env_seed_data true env) [
  | none ↦ none
  | some false ↦ some d
  | some true ↦ elim (seed exec count_projects script d) [
    | none ↦ none
    | some (wrote, d') ↦ some d'
  ]
]

-- What a start needs from outside: time.ParseDuration, the effect of a statement, os.ReadFile, the
-- hash of a password; and the embedded files.
pub record World : Type 0 where
  pub parse_duration : Str → Option ℤ
  pub exec : Str → Database → Option Database
  pub read_file : Str → Option Str
  pub hash : Str → Option Str
  pub files : List Migration
  pub count_projects : Database → ℕ
  pub seed_script : Str

-- What the server runs with.
pub record Running : Type 0 where
  pub limits : Limits
  pub otp_limits : Limits
  pub cleanup : Config
  pub db : Database
  pub applied : List Applied

-- An outcome that does not stop the start.
unfoldable pub goes_on : Bootstrap → Bool
goes_on nothing_configured = true
goes_on already_exists = true
goes_on created = true
goes_on _ = false

-- `cmdServe` up to its background jobs: the variables, the migrations, the demo data, the account.
-- `none` is an error that ends it.
unfoldable pub prepare : World → ℕ → Variables → Database × List Applied → Option Running
prepare w ts env state = elim (token_limits w.parse_duration env) [
  | none ↦ none
  | some limits ↦ elim (otp_limits w.parse_duration env) [
    | none ↦ none
    | some codes_limits ↦ elim (cleanup_config w.parse_duration env) [
      | none ↦ none
      | some config ↦ elim (migrate w.exec ts w.files state) [
        | failed name left ↦ none
        | done (d, applied) ↦ elim (seed_demo_data w.exec w.count_projects w.seed_script env d) [
          | none ↦ none
          | some d' ↦
              let (outcome, d'') = bootstrap_admin w.read_file w.hash ts env d' in
              if goes_on outcome
              then some (record {
                limits = limits;
                otp_limits = codes_limits;
                cleanup = config;
                db = d'';
                applied = applied;
              })
              else none
        ]
      ]
    ]
  ]
]

-- The routes of the API.
pub data Route : Type 0 where
  consume_token create_token : Route
  list_tokens get_token revoke_token delete_token : Route
  generate_otp validate_otp : Route
  list_otps get_otp revoke_otp delete_otp : Route

-- `buildHandler`: the scope that each is mounted behind.
abbrev pub required_scope : Route → Str
required_scope consume_token = scope_consume
required_scope create_token = scope_write
required_scope list_tokens = scope_admin
required_scope get_token = scope_admin
required_scope revoke_token = scope_admin
required_scope delete_token = scope_admin
required_scope generate_otp = scope_write
required_scope validate_otp = scope_consume
required_scope list_otps = scope_admin
required_scope get_otp = scope_admin
required_scope revoke_otp = scope_admin
required_scope delete_otp = scope_admin

-- A request to a route, by its header.
unfoldable pub authorise : (Str → Str) → Route → Str → Database → Verdict
authorise hash_key route header d = require hash_key (required_scope route) header d

-- One round of `startSessionJanitor`.
unfoldable pub janitor : ℕ → Database → Database
janitor ts d = delete_expired_sessions ts d

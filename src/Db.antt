-- ===== src/Db.antt =====
-- internal/db: the tables as lists of rows in insertion order, and what a statement returns. A query
-- is the statement's meaning on these lists; failures of the driver or of the disk are not modelled,
-- so `failure` is the error of a broken constraint other than UNIQUE. The clock is an argument.
pub mod Listing
pub mod Tokens
pub mod Otps
pub mod Webhooks
pub mod Projects
pub mod Keys
pub mod Users
pub mod Migrate
use tokenzy.Prelude.{ℕ, Bool, List, [], ◌∷◌, ◌++◌, Option, none, some, if◌then◌else◌}
use tokenzy.Prelude.Str.{Str}
use tokenzy.Model.{
  User, Session, Project, Environment, ApiKey, Token, Otp, WebhookDelivery, EventType,
}

-- The sentinel errors.
pub data DbError : Type 0 where
  not_found duplicate failure : DbError

pub data Result {ℓ} (A : Type ℓ) : Type ℓ where
  ok : A → Result A
  err : DbError → Result A

pub record TokenEvent : Type 0 where
  pub env_id : ℕ
  pub event_type : EventType
  pub tok : Token

-- A row of `webhooks`, whose two text columns hold the subscription list and the JSON of the headers.
pub record WebhookRow : Type 0 where
  pub id : ℕ
  pub environment_id : ℕ
  pub url : Str
  pub secret : Str
  pub events : Str
  pub headers : Str
  pub label : Str
  pub include_payload : Bool
  pub created_at : ℕ
  pub disabled_at : Option ℕ

-- `events` holds the calls of the hook `OnTokenEvent`, oldest first; `hooked` says that it is set.
pub record Database : Type 0 where
  pub projects : List Project
  pub environments : List Environment
  pub api_keys : List ApiKey
  pub tokens : List Token
  pub otps : List Otp
  pub webhooks : List WebhookRow
  pub deliveries : List WebhookDelivery
  pub users : List User
  pub sessions : List Session
  pub hooked : Bool
  pub events : List TokenEvent

-- The plaintext is cleared before the hook sees the token.
unfoldable pub emit_token_event : ℕ → EventType → Token → Database → Database
emit_token_event env kind tok d =
    if d.hooked
    then record d {
      events =
          d.events
          ++ record { env_id = env; event_type = kind; tok = record tok { value = [] } } ∷ [];
    }
    else d

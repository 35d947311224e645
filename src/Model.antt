-- ===== src/Model.antt =====
-- internal/model/model.go: the domain structs and the validation rules. Counters, row ids and unix
-- timestamps are natural numbers; an optional column or pointer is an `Option`.
mod Scope
mod Validate
pub mod Laws
pub use Scope.{scope_consume, scope_write, scope_admin}
unfoldable pub use Scope.{scope_rank, valid_scope, scope_allows}
unfoldable pub use Validate.{
  valid_slug, valid_otp_type, valid_identifier, valid_username, valid_password, all_bytes,
  is_lower_alnum, slug_byte, otp_type_byte,
}
use tokenzy.Prelude.{
  ℕ, ◌-◌, ◌&&◌, not, Bool, true, Option, none, some, List, [], ◌∷◌, ltb, is_none, is_some, is_nil,
  if◌then◌else◌,
}
use tokenzy.Prelude.Str.{Str, codes, str_eq}

pub record User : Type 0 where
  pub id : ℕ
  pub username : Str
  pub password_hash : Str
  pub created_at : ℕ

pub record Session : Type 0 where
  pub id : Str
  pub user_id : ℕ
  pub expires_at : ℕ

pub record Project : Type 0 where
  pub id : ℕ
  pub slug : Str
  pub name : Str
  pub created_at : ℕ

pub record Environment : Type 0 where
  pub id : ℕ
  pub project_id : ℕ
  pub slug : Str
  pub created_at : ℕ

pub record ApiKey : Type 0 where
  pub id : ℕ
  pub environment_id : ℕ
  pub key_hash : Str
  pub key_prefix : Str
  pub scope : Str
  pub label : Str
  pub created_at : ℕ
  pub revoked_at : Option ℕ

unfoldable pub active : ApiKey → Bool
active k = is_none k.revoked_at

pub record Token : Type 0 where
  pub id : Str
  pub environment_id : ℕ
  pub value : Str
  pub prefix : Str
  pub payload_json : Str
  pub max_uses : Option ℕ
  pub used_count : ℕ
  pub expires_at : ℕ
  pub revoked_at : Option ℕ
  pub created_at : ℕ
  pub last_used_at : Option ℕ

-- `none` stands for the pair `(0, false)` of a token with no limit.
unfoldable pub remaining : Token → Option ℕ
remaining t = elim t.max_uses [
  | none ↦ none
  | some m ↦ some (if ltb m t.used_count then 0 else m - t.used_count)
]

pub record Otp : Type 0 where
  pub id : Str
  pub environment_id : ℕ
  pub otp_type : Str
  pub identifier : Str
  pub code : Str
  pub attempt_count : ℕ
  pub max_attempts : ℕ
  pub expires_at : ℕ
  pub consumed_at : Option ℕ
  pub revoked_at : Option ℕ
  pub created_at : ℕ

unfoldable pub attempts_left : Otp → ℕ
attempts_left o = if ltb o.max_attempts o.attempt_count then 0 else o.max_attempts - o.attempt_count

-- The event types. `webhook.test` is the one of the panel's Test button; no webhook subscribes to it.
pub data EventType : Type 0 where
  token_created token_consumed token_exhausted token_revoked : EventType
  webhook_test : EventType

abbrev pub event_name : EventType → Str
event_name token_created = codes "token.created"
event_name token_consumed = codes "token.consumed"
event_name token_exhausted = codes "token.exhausted"
event_name token_revoked = codes "token.revoked"
event_name webhook_test = codes "webhook.test"

abbrev pub webhook_events : List Str
webhook_events =
    event_name token_created
    ∷ event_name token_consumed
    ∷ event_name token_exhausted
    ∷ event_name token_revoked
    ∷ []

-- The loop `for _, e := range l { if e == s { return true } }`.
unfoldable pub contains : List Str → Str → Bool
unfolding str_eq
contains [] s = Bool.false
contains (e ∷ l) s = if str_eq e s then true else contains l s

unfoldable pub valid_webhook_event : Str → Bool
valid_webhook_event = contains webhook_events

pub record Webhook : Type 0 where
  pub id : ℕ
  pub environment_id : ℕ
  pub url : Str
  pub secret : Str
  pub events : List Str
  pub headers : List (Str × Str)
  pub label : Str
  pub include_payload : Bool
  pub created_at : ℕ
  pub disabled_at : Option ℕ

unfoldable pub enabled : Webhook → Bool
enabled w = is_none w.disabled_at

unfoldable pub subscribes : Webhook → Str → Bool
subscribes w event = if is_nil w.events then true else contains w.events event

pub record WebhookDelivery : Type 0 where
  pub id : ℕ
  pub webhook_id : ℕ
  pub event_id : Str
  pub event_type : Str
  pub payload : Str
  pub attempt : ℕ
  pub status_code : Option ℕ
  pub error : Str
  pub next_retry_at : Option ℕ
  pub delivered_at : Option ℕ
  pub created_at : ℕ

unfoldable pub delivered : WebhookDelivery → Bool
delivered d = is_some d.delivered_at

unfoldable pub pending : WebhookDelivery → Bool
pending d = is_none d.delivered_at && is_some d.next_retry_at

unfoldable pub gave_up : WebhookDelivery → Bool
gave_up d = is_none d.delivered_at && is_none d.next_retry_at

-- ===== src/Webhook/Record.antt =====
-- From events to delivery rows (internal/webhook/dispatch.go): the bounded queue in front of the
-- recorder, the payload, and one row for each interested webhook. encoding/json, the printing of
-- times and the random bytes are parameters.
pub mod Fanout
pub mod Listeners
pub mod Audience
use tokenzy.Prelude.{
  ℕ, Bool, true, false, Option, none, some, List, [], ◌∷◌, ◌++◌, ltb, is_nil, length, if◌then◌else◌,
}
use tokenzy.Prelude.Str.{Str, codes}
use tokenzy.Model.{Token, Webhook, WebhookDelivery, EventType, event_name, subscribes}
use tokenzy.Token.Status.{Status, status_of}
use tokenzy.Token.Generate.{hex}
use tokenzy.Db.{Database, TokenEvent, ok, err}
use tokenzy.Db.Projects.{get_environment_by_id}
use tokenzy.Db.Webhooks.{HeaderJson, list_enabled_webhooks, enqueue_delivery, list_deliveries}

abbrev pub queue_size : ℕ
queue_size = 512

abbrev pub delivery_history : ℕ
delivery_history = 20

-- The two channels of `Dispatcher`; `wake` says that a nudge is pending.
pub record Dispatcher : Type 0 where
  pub queue : List TokenEvent
  pub wake : Bool

-- `Notify`: what does not fit is dropped.
unfoldable pub notify : TokenEvent → Dispatcher → Dispatcher
notify ev s = if ltb (length s.queue) queue_size then record s { queue = s.queue ++ ev ∷ [] } else s

unfoldable pub nudge : Dispatcher → Dispatcher
nudge s = record s { wake = true }

-- `tokenData` and `eventBody`
pub record TokenData : Type 0 where
  pub id : Str
  pub token_prefix : Str
  pub status : Status
  pub used_count : ℕ
  pub max_uses : Option ℕ
  pub expires_at : Str
  pub created_at : Str
  pub last_used_at : Option Str
  pub payload : Option Str

pub record EventBody : Type 0 where
  pub id : Str
  pub event_type : Str
  pub created_at : Str
  pub environment : Str
  pub token : Option TokenData

-- The JSON of a body, `none` for an error of Marshal, and a time stamp in RFC 3339.
pub record Format : Type 0 where
  pub marshal : EventBody → Option Str
  pub rfc3339 : ℕ → Str

abbrev pub token_data : Format → ℕ → Token → Bool → TokenData
token_data fmt ts t include_payload = record {
  id = t.id;
  token_prefix = t.prefix;
  status = status_of t ts;
  used_count = t.used_count;
  max_uses = t.max_uses;
  expires_at = fmt.rfc3339 t.expires_at;
  created_at = fmt.rfc3339 t.created_at;
  last_used_at = elim t.last_used_at [ none ↦ none | some at ↦ some (fmt.rfc3339 at) ];
  payload =
      if include_payload then if is_nil t.payload_json then none else some t.payload_json else none;
}

unfoldable pub build_payload : Format → ℕ → Str → Str → Str → Token → Bool → Option Str
build_payload fmt ts event_id event_type slug t include_payload = fmt.marshal (record {
  id = event_id;
  event_type = event_type;
  created_at = fmt.rfc3339 ts;
  environment = slug;
  token = some (token_data fmt ts t include_payload);
})

unfoldable pub new_event_id : Option Str → Option Str
new_event_id none = none
new_event_id (some buf) = some (codes "evt_" ++ hex buf)

-- The loop over the webhooks: whether it ended without an error, how many rows it wrote, and the
-- state behind it.
unfoldable pub fan_out :
    Format → ℕ → Str → Str → TokenEvent → List Webhook → Database → Bool × (Bool × Database)
fan_out fmt ts event_id slug ev [] d = (true, (false, d))
fan_out fmt ts event_id slug ev (hook ∷ hooks) d =
    elim (subscribes hook (event_name ev.event_type)) [
      | false ↦ fan_out fmt ts event_id slug ev hooks d
      | true ↦
          elim (build_payload fmt ts event_id (event_name ev.event_type) slug ev.tok
            hook.include_payload) [
              | none ↦ (false, (false, d))
              | some body ↦
                  let (r, d') =
                    enqueue_delivery ts hook.id event_id (event_name ev.event_type) body d in
                  elim r [
                    | err e ↦ (false, (false, d'))
                    | ok x ↦
                        let (done, (queued, d'')) = fan_out fmt ts event_id slug ev hooks d' in
                        (done, (true, d''))
                  ]
            ]
    ]

-- `record`, undisturbed by other writers: whether the sender is to be nudged, and the state.
unfoldable pub record_event :
    HeaderJson → Format → ℕ → Option Str → TokenEvent → Database → Bool × Database
record_event json fmt ts buf ev d =
    let hooks = list_enabled_webhooks json ev.env_id d in
    if is_nil hooks then (false, d) else elim (get_environment_by_id ev.env_id d) [
      | err e ↦ (false, d)
      | ok env ↦ elim (new_event_id buf) [
        | none ↦ (false, d)
        | some event_id ↦
            let (done, (queued, d')) = fan_out fmt ts event_id env.slug ev hooks d in
            (if done then queued else false, d')
      ]
    ]

-- `Test`: no data in the body.
unfoldable pub test_delivery :
    Format → ℕ → Option Str → Webhook → Dispatcher → Database → Bool × (Dispatcher × Database)
test_delivery fmt ts buf hook s d = elim (new_event_id buf) [
  | none ↦ (false, (s, d))
  | some event_id ↦ elim (get_environment_by_id hook.environment_id d) [
    | err e ↦ (false, (s, d))
    | ok env ↦
        elim (fmt.marshal (record {
          id = event_id;
          event_type = event_name EventType.webhook_test;
          created_at = fmt.rfc3339 ts;
          environment = env.slug;
          token = none;
        })) [
          | none ↦ (false, (s, d))
          | some body ↦
              let (r, d') =
                enqueue_delivery ts hook.id event_id (event_name EventType.webhook_test) body d in
              elim r [ err e ↦ (false, (s, d')) | ok x ↦ (true, (nudge s, d')) ]
        ]
  ]
]

-- `DeliveryHistory`
unfoldable pub history : ℕ → Database → List WebhookDelivery
history webhook d = list_deliveries webhook delivery_history d

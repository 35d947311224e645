-- ===== src/Db/Webhooks.antt =====
-- internal/db/webhooks.go: one function for each query, on the tables and the clock.
pub mod Subscription
use tokenzy.Prelude.{
  ℕ, Bool, false, not, ◌&&◌, ◌||◌, Option, none, some, List, [], ◌∷◌, ◌++◌, map, ltb, leb, min,
  ◌==◌, is_some, is_none, is_nil, take, if◌then◌else◌,
}
use tokenzy.Prelude.Str.{Str}
use tokenzy.Prelude.Text.{trim_space, split_at, join_with}
use tokenzy.Prelude.Table.{
  select, select_row, count_where, update_where, delete_where, delete_limit, sort_by, next_rowid,
  orphaned,
}
use tokenzy.Model.{Environment, Webhook, WebhookDelivery}
use tokenzy.Db.{Database, WebhookRow, Result, ok, err, not_found, failure}

-- encoding/json on the header map: the text of a map, and what Unmarshal leaves in an empty map.
pub record HeaderJson : Type 0 where
  pub encode : List (Str × Str) → Str
  pub decode : Str → List (Str × Str)

-- The names between the commas, trimmed, without the empty ones.
unfoldable pub trimmed_parts : List Str → List Str
trimmed_parts [] = []
trimmed_parts (p ∷ ps) =
    let rest = trimmed_parts ps in if is_nil (trim_space p) then rest else trim_space p ∷ rest

unfoldable pub split_events : Str → List Str
split_events s = if is_nil (trim_space s) then [] else trimmed_parts (split_at b',' (trim_space s))

unfoldable pub scan_webhook : HeaderJson → WebhookRow → Webhook
scan_webhook json w = record {
  id = w.id;
  environment_id = w.environment_id;
  url = w.url;
  secret = w.secret;
  events = split_events w.events;
  headers = if is_nil w.headers then [] else json.decode w.headers;
  label = w.label;
  include_payload = w.include_payload;
  created_at = w.created_at;
  disabled_at = w.disabled_at;
}

abbrev pub env_exists : ℕ → List Environment → Bool
env_exists env es = is_some (select_row (λ (e : Environment). e.id == env) es)

-- The row that the INSERT stores, and the webhook that the caller gets for it.
abbrev pub new_row :
    HeaderJson → ℕ → ℕ → ℕ → Str → Str → List Str → List (Str × Str) → Str → Bool → WebhookRow
new_row json ts id env url secret events headers label include_payload = record {
  id = id;
  environment_id = env;
  url = url;
  secret = secret;
  events = join_with b',' events;
  headers = json.encode headers;
  label = label;
  include_payload = include_payload;
  created_at = ts;
  disabled_at = none;
}

abbrev pub new_webhook : ℕ → ℕ → ℕ → Str → Str → List Str → List (Str × Str) → Str → Bool → Webhook
new_webhook ts id env url secret events headers label include_payload = record {
  id = id;
  environment_id = env;
  url = url;
  secret = secret;
  events = events;
  headers = headers;
  label = label;
  include_payload = include_payload;
  created_at = ts;
  disabled_at = none;
}

unfoldable pub create_webhook :
    HeaderJson
    → ℕ
    → ℕ
    → Str
    → Str
    → List Str
    → List (Str × Str)
    → Str
    → Bool
    → Database
    → Result Webhook × Database
create_webhook json ts env url secret events headers label include_payload d =
    if not (env_exists env d.environments)
    then (err failure, d)
    else let id = next_rowid (λ (w : WebhookRow). w.id) d.webhooks in
      (
        ok (new_webhook ts id env url secret events headers label include_payload),
        record d {
          webhooks =
              d.webhooks
              ++ new_row json ts id env url secret events headers label include_payload ∷ [];
        },
      )

-- ORDER BY created_at DESC, id DESC, and by id.
abbrev pub newest_first : WebhookRow → WebhookRow → Bool
newest_first a b = ltb b.created_at a.created_at || (a.created_at == b.created_at && ltb b.id a.id)

abbrev pub lowest_first : WebhookRow → WebhookRow → Bool
lowest_first a b = ltb a.id b.id

unfoldable pub list_webhooks : HeaderJson → ℕ → Database → List Webhook
list_webhooks json env d =
    map (scan_webhook json)
      (sort_by newest_first (select (λ (w : WebhookRow). w.environment_id == env) d.webhooks))

abbrev pub enabled_in : ℕ → WebhookRow → Bool
enabled_in env w = w.environment_id == env && is_none w.disabled_at

unfoldable pub list_enabled_webhooks : HeaderJson → ℕ → Database → List Webhook
list_enabled_webhooks json env d =
    map (scan_webhook json) (sort_by lowest_first (select (enabled_in env) d.webhooks))

abbrev pub by_id : ℕ → ℕ → WebhookRow → Bool
by_id id env w = w.id == id && w.environment_id == env

unfoldable pub get_webhook : HeaderJson → ℕ → ℕ → Database → Result Webhook
get_webhook json id env d = elim (select_row (by_id id env) d.webhooks) [
  | none ↦ err not_found
  | some w ↦ ok (scan_webhook json w)
]

unfoldable pub get_webhook_by_id : HeaderJson → ℕ → Database → Result Webhook
get_webhook_by_id json id d = elim (select_row (λ (w : WebhookRow). w.id == id) d.webhooks) [
  | none ↦ err not_found
  | some w ↦ ok (scan_webhook json w)
]

unfoldable pub set_webhook_enabled : ℕ → ℕ → ℕ → Bool → Database → Result (Unit {0}) × Database
set_webhook_enabled ts id env enabled d = (
  if count_where (by_id id env) d.webhooks == 0 then err not_found else ok tt,
  record d {
    webhooks =
        update_where (by_id id env)
          (λ (w : WebhookRow). record w { disabled_at = if enabled then none else some ts })
          d.webhooks;
  },
)

-- The deliveries go with their webhook.
unfoldable pub remove_webhooks : (WebhookRow → Bool) → Database → Database
remove_webhooks p d = record d {
  webhooks = delete_where p d.webhooks;
  deliveries =
      delete_where
        (λ (x : WebhookDelivery). orphaned p (λ (w : WebhookRow). w.id) d.webhooks x.webhook_id)
        d.deliveries;
}

unfoldable pub delete_webhook : ℕ → ℕ → Database → Result (Unit {0}) × Database
delete_webhook id env d = (
  if count_where (by_id id env) d.webhooks == 0 then err not_found else ok tt,
  remove_webhooks (by_id id env) d,
)

abbrev pub new_delivery : ℕ → ℕ → ℕ → Str → Str → Str → WebhookDelivery
new_delivery ts id webhook event_id event_type payload = record {
  id = id;
  webhook_id = webhook;
  event_id = event_id;
  event_type = event_type;
  payload = payload;
  attempt = 0;
  status_code = none;
  error = [];
  next_retry_at = some ts;
  delivered_at = none;
  created_at = ts;
}

unfoldable pub enqueue_delivery :
    ℕ → ℕ → Str → Str → Str → Database → Result WebhookDelivery × Database
enqueue_delivery ts webhook event_id event_type payload d =
    if is_none (select_row (λ (w : WebhookRow). w.id == webhook) d.webhooks)
    then (err failure, d)
    else let x =
        new_delivery ts (next_rowid (λ (y : WebhookDelivery). y.id) d.deliveries) webhook event_id
          event_type payload in
      (ok x, record d { deliveries = d.deliveries ++ x ∷ [] })

-- The WHERE clause of `DueDeliveries` and its order, next_retry_at ASC, id ASC.
unfoldable pub is_due : ℕ → WebhookDelivery → Bool
is_due at x = is_none x.delivered_at && elim x.next_retry_at [ none ↦ false | some t ↦ leb t at ]

abbrev pub retry_time : WebhookDelivery → ℕ
retry_time x = elim x.next_retry_at [ none ↦ 0 | some t ↦ t ]

abbrev pub due_first : WebhookDelivery → WebhookDelivery → Bool
due_first a b = ltb (retry_time a) (retry_time b) || (retry_time a == retry_time b && ltb a.id b.id)

unfoldable pub due_deliveries : ℕ → ℕ → Database → List WebhookDelivery
due_deliveries at limit d = take limit (sort_by due_first (select (is_due at) d.deliveries))

-- The SET clause of `RecordDeliveryResult`.
abbrev pub set_result : ℕ → ℕ → ℕ → Str → Option ℕ → Bool → WebhookDelivery → WebhookDelivery
set_result ts attempt status error next delivered x = record x {
  attempt = attempt;
  status_code = if ltb 0 status then some status else none;
  error = error;
  next_retry_at = next;
  delivered_at = if delivered then some ts else none;
}

unfoldable pub record_delivery_result : ℕ → ℕ → ℕ → ℕ → Str → Option ℕ → Bool → Database → Database
record_delivery_result ts id attempt status error next delivered d = record d {
  deliveries =
      update_where (λ (x : WebhookDelivery). x.id == id)
        (set_result ts attempt status error next delivered) d.deliveries;
}

abbrev pub latest_first : WebhookDelivery → WebhookDelivery → Bool
latest_first a b = ltb b.created_at a.created_at || (a.created_at == b.created_at && ltb b.id a.id)

unfoldable pub list_deliveries : ℕ → ℕ → Database → List WebhookDelivery
list_deliveries webhook limit d =
    take limit (
      sort_by latest_first (select (λ (x : WebhookDelivery). x.webhook_id == webhook) d.deliveries))

-- Settled: delivered or given up.
unfoldable pub is_old : ℕ → WebhookDelivery → Bool
is_old before x = ltb x.created_at before && (is_some x.delivered_at || is_none x.next_retry_at)

unfoldable pub delete_old_deliveries : ℕ → ℕ → Database → ℕ × Database
delete_old_deliveries before limit d = (
  min limit (count_where (is_old before) d.deliveries),
  record d { deliveries = delete_limit limit (is_old before) d.deliveries },
)

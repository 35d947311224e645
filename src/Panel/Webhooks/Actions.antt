-- ===== src/Panel/Webhooks/Actions.antt =====
-- internal/ui/webhooks.go: the handlers that write.
use tokenzy.Prelude.{
  true, false, not, Option, none, some, List, [], ◌∷◌, map, is_nil, if◌then◌else◌,
}
use tokenzy.Prelude.Int.{pos, negsuc}
use tokenzy.Prelude.Str.{Str, codes, str_eq}
use tokenzy.Prelude.Text.{trim_space}
use tokenzy.Prelude.Decimal.{parse_int64}
use tokenzy.Model.{Webhook, valid_webhook_event, enabled}
use tokenzy.Db.{Database, ok, err, not_found}
use tokenzy.Db.Webhooks as Store
use tokenzy.Db.Webhooks.{get_webhook, set_webhook_enabled}
use tokenzy.Webhook.Headers as Headers
use tokenzy.Webhook.Headers.{parse_headers}
use tokenzy.Webhook.Record.{Dispatcher, Format, test_delivery}
use tokenzy.Webhook.Target.{validate_url, new_secret}
use tokenzy.Panel.{
  Request, unix, Answer, bad_request, unknown, internal_error, Scope, found, missing, failed,
  resolve_env, writing, settled,
}
use tokenzy.Panel.Webhooks.{
  Site, WebhookForm, WebhooksView, WebhookError, invalid_url, not_running, unknown_event,
  header_error, created, queued, render_webhooks_panel,
}

-- The fields of the form as they are sent.
pub record Fields : Type 0 where
  pub url : Str
  pub label : Str
  pub headers : Str
  pub events : List Str
  pub include_payload : Str

unfoldable pub read_form : Fields → WebhookForm
read_form f = record {
  url = trim_space f.url;
  label = trim_space f.label;
  headers = f.headers;
  events = map trim_space f.events;
  payload = str_eq f.include_payload (codes "1");
}

-- The loop over the events: blanks are passed over, an unknown name ends it.
pub data Events : Type 0 where
  chosen : List Str → Events
  unknown_name : Str → Events

unfoldable pub read_events : List Str → Events
read_events [] = chosen []
read_events (e ∷ es) =
    let rest = read_events es in
    if is_nil (trim_space e)
    then rest
    else if not (valid_webhook_event (trim_space e))
    then unknown_name (trim_space e)
    else elim rest [ chosen l ↦ chosen (trim_space e ∷ l) | unknown_name n ↦ unknown_name n ]

-- A form that has passed the checks.
pub record Checked : Type 0 where
  pub events : List Str
  pub headers : List (Str × Str)

pub data Verdict : Type 0 where
  accepted : Checked → Verdict
  refused : WebhookError → Verdict

-- The checks of `createWebhook` in their order.
unfoldable pub check_form : Site → Fields → Verdict
check_form site f =
    if not (validate_url site.parse_url (trim_space f.url))
    then refused invalid_url
    else elim (read_events f.events) [
      | unknown_name n ↦ refused (unknown_event n)
      | chosen events ↦ elim (parse_headers f.headers) [
        | Headers.err e ↦ refused (header_error e)
        | Headers.ok headers ↦ accepted (record { events = events; headers = headers })
      ]
    ]

-- `createWebhook`, on the random bytes of the secret.
unfoldable pub create_webhook :
    Site → Request → Fields → Option Str → Database → Answer WebhooksView × Database
create_webhook site r f buf d = writing (resolve_env r d) d λ scope.
    let form = read_form f in
    elim (check_form site f) [
      | refused e ↦ (render_webhooks_panel site r scope (some e) none (some form) 422 d, d)
      | accepted c ↦ elim (new_secret buf) [
        | none ↦ (internal_error, d)
        | some secret ↦
            let (res, d') =
              Store.create_webhook site.json (unix r) scope.env.id form.url secret c.events
                c.headers form.label form.payload d in
            elim res [
              | err e ↦ (internal_error, d')
              | ok w ↦ (render_webhooks_panel site r scope none (some created) none 200 d', d')
            ]
      ]
    ]

-- What `resolveWebhook` hands on, or the answer that it has written.
pub data Loaded : Type 0 where
  hook : Scope → Webhook → Loaded
  bad_id absent broken : Loaded

-- A negative id is the id of no row.
unfoldable pub resolve_webhook : Site → Request → Database → Loaded
resolve_webhook site r d = elim (resolve_env r d) [
  | missing ↦ absent
  | failed ↦ broken
  | found scope ↦ elim (parse_int64 r.id) [
    | none ↦ bad_id
    | some (negsuc n) ↦ absent
    | some (pos id) ↦ elim (get_webhook site.json id scope.env.id d) [
      | ok w ↦ hook scope w
      | err not_found ↦ absent
      | err _ ↦ broken
    ]
  ]
]

abbrev pub with_hook :
    Loaded
    → Database
    → (Scope → Webhook → Answer WebhooksView × Database)
    → Answer WebhooksView × Database
with_hook (hook scope w) d k = k scope w
with_hook bad_id d k = (bad_request, d)
with_hook absent d k = (unknown, d)
with_hook broken d k = (internal_error, d)

abbrev pub plain_panel : Site → Request → Scope → Database → Answer WebhooksView
plain_panel site r scope d = render_webhooks_panel site r scope none none none 200 d

unfoldable pub toggle_webhook : Site → Request → Database → Answer WebhooksView × Database
toggle_webhook site r d = with_hook (resolve_webhook site r d) d λ scope w.
    let (res, d') = set_webhook_enabled (unix r) w.id scope.env.id (not (enabled w)) d in
    elim res [ err e ↦ (internal_error, d') | ok _ ↦ (plain_panel site r scope d', d') ]

-- `testWebhook`, with the dispatcher that the delivery wakes.
unfoldable pub test_webhook :
    Site
    → Format
    → Request
    → Option Str
    → Dispatcher
    → Database
    → Answer WebhooksView × (Dispatcher × Database)
test_webhook site fmt r buf s d = elim (resolve_webhook site r d) [
  | bad_id ↦ (bad_request, (s, d))
  | absent ↦ (unknown, (s, d))
  | broken ↦ (internal_error, (s, d))
  | hook scope w ↦ elim site.running [
    | false ↦ (render_webhooks_panel site r scope (some not_running) none none 200 d, (s, d))
    | true ↦
        let (done, (s', d')) = test_delivery fmt (unix r) buf w s d in
        (
          if done
              then render_webhooks_panel site r scope none (some queued) none 200 d'
              else internal_error,
          (s', d'),
        )
  ]
]

unfoldable pub delete_webhook : Site → Request → Database → Answer WebhooksView × Database
delete_webhook site r d = with_hook (resolve_webhook site r d) d λ scope w.
    let (res, d') = Store.delete_webhook w.id scope.env.id d in
    settled res (plain_panel site r scope d') d'

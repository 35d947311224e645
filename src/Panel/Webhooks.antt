-- ===== src/Panel/Webhooks.antt =====
-- internal/ui/webhooks.go: the page of an environment's webhooks.
pub mod Actions
pub mod Created
use tokenzy.Prelude.{
  ℕ, Bool, true, false, not, Option, none, some, List, [], ◌∷◌, ◌++◌, map, is_nil, if◌then◌else◌,
}
use tokenzy.Prelude.Int.{ℤ, pos, negsuc}
use tokenzy.Prelude.Str.{Str, codes, str_eq, str_lt}
use tokenzy.Prelude.Text.{trim_space}
use tokenzy.Prelude.Decimal.{parse_int64, show_nat}
use tokenzy.Prelude.Table.{sort_by}
use tokenzy.Model.{
  Webhook, WebhookDelivery, webhook_events, valid_webhook_event, enabled, delivered, pending,
}
use tokenzy.Db.{Database, ok, err, not_found}
use tokenzy.Db.Webhooks as Store
use tokenzy.Db.Webhooks.{HeaderJson, list_webhooks, get_webhook, set_webhook_enabled}
use tokenzy.Webhook.Headers as Headers
use tokenzy.Webhook.Headers.{HeaderError, parse_headers}
use tokenzy.Webhook.Record.{Dispatcher, Format, test_delivery, history}
use tokenzy.Webhook.Target.{Target, validate_url, new_secret}
use tokenzy.Panel.{
  Request, unix, Answer, page, fragment, bad_request, unknown, internal_error, Layout, layout_for,
  Scope, Resolved, found, missing, failed, resolve_env, reading, writing, settled, format_time,
  format_time_ptr, titled,
}

pub record DeliveryRow : Type 0 where
  pub delivery : WebhookDelivery
  pub created : Str
  pub state : Str
  pub detail : Str

pub record WebhookCard : Type 0 where
  pub project : Str
  pub env : Str
  pub hook : Webhook
  pub created : Str
  pub events : Str
  pub header_list : List Str
  pub deliveries : List DeliveryRow

-- The events that are ticked.
pub record WebhookForm : Type 0 where
  pub url : Str
  pub label : Str
  pub headers : Str
  pub events : List Str
  pub payload : Bool

pub data WebhookError : Type 0 where
  invalid_url not_running : WebhookError
  unknown_event : Str → WebhookError
  header_error : HeaderError → WebhookError

pub data Notice : Type 0 where
  created queued : Notice

pub record WebhooksView : Type 0 where
  pub layout : Layout
  pub rows : List WebhookCard
  pub all_events : List Str
  pub form : WebhookForm
  pub error : Option WebhookError
  pub notice : Option Notice

-- What the server is set up with: whether delivery runs, the header column's JSON, net/url and the
-- printing of times.
pub record Site : Type 0 where
  pub running : Bool
  pub json : HeaderJson
  pub parse_url : Str → Option Target
  pub print : ℕ → Str

-- `headerLines`
unfoldable pub header_lines : List (Str × Str) → List Str
header_lines headers =
    map (λ (h : Str × Str). h.0 ++ (codes ": " ++ h.1))
      (sort_by (λ (a : Str × Str) (b : Str × Str). str_lt a.0 b.0) headers)

-- `deliveryRow`
unfoldable pub delivery_row : (ℕ → Str) → WebhookDelivery → DeliveryRow
delivery_row print x =
    if delivered x
    then record {
      delivery = x;
      created = format_time print x.created_at;
      state = codes "delivered";
      detail = elim x.status_code [ none ↦ [] | some n ↦ show_nat n ];
    }
    else if pending x
    then record {
      delivery = x;
      created = format_time print x.created_at;
      state = codes "retrying";
      detail =
          codes "attempt "
          ++ (show_nat x.attempt
              ++ (b' ' ∷ 0xc2 ∷ 0xb7 ∷ codes " next " ++ format_time_ptr print x.next_retry_at));
    }
    else record {
      delivery = x;
      created = format_time print x.created_at;
      state = codes "failed";
      detail = x.error;
    }

-- strings.Join with ", ".
unfoldable pub comma_separated : List Str → Str
comma_separated [] = []
comma_separated (e ∷ []) = e
comma_separated (e ∷ f ∷ es) = e ++ (codes ", " ++ comma_separated (f ∷ es))

unfoldable pub webhook_card : Site → Scope → Database → Webhook → WebhookCard
webhook_card site scope d h = record {
  project = scope.project.slug;
  env = scope.env.slug;
  hook = h;
  created = format_time site.print h.created_at;
  events = if is_nil h.events then codes "all events" else comma_separated h.events;
  header_list = header_lines h.headers;
  deliveries = if site.running then map (delivery_row site.print) (history h.id d) else [];
}

abbrev pub empty_form : WebhookForm
empty_form = record { url = []; label = []; headers = []; events = []; payload = false }

unfoldable pub webhooks_view :
    Site
    → Request
    → Scope
    → Option WebhookError
    → Option Notice
    → Option WebhookForm
    → Database
    → WebhooksView
webhooks_view site r scope error notice form d = record {
  layout =
      layout_for r (titled (codes "Webhooks") scope.project) (some scope.project) (some scope.env)
        scope.envs (codes "webhooks");
  rows = map (webhook_card site scope d) (list_webhooks site.json scope.env.id d);
  all_events = webhook_events;
  form = elim form [ none ↦ empty_form | some f ↦ f ];
  error = error;
  notice = notice;
}

-- `renderWebhooksPanel`
unfoldable pub render_webhooks_panel :
    Site
    → Request
    → Scope
    → Option WebhookError
    → Option Notice
    → Option WebhookForm
    → ℕ
    → Database
    → Answer WebhooksView
render_webhooks_panel site r scope error notice form code d =
    fragment code (codes "webhooks_panel") (webhooks_view site r scope error notice form d)

unfoldable pub webhooks_page : Site → Request → Database → Answer WebhooksView
webhooks_page site r d =
    reading (resolve_env r d)
      λ scope. page 200 (codes "webhooks.html") (webhooks_view site r scope none none none d)

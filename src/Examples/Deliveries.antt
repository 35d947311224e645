-- ===== src/Examples/Deliveries.antt =====
-- Cleanup and webhooks at concrete inputs.
use tokenzy.Prelude.{ℕ, ◌≡◌, refl, true, some, none, [], ◌∷◌, ◌++◌, Bool, arith, All, ◌*◌}
use tokenzy.Prelude.Str.{codes, str_eq}
use tokenzy.Prelude.Text.{split_at, trim_space, strip, leading_space, trailing_space, cut}
use tokenzy.Prelude.Decimal.{show_nat}
use tokenzy.Prelude.Table.{count_where, select_row}
use tokenzy.Ttl.{second}
use tokenzy.Model.{Webhook, WebhookDelivery, pending, gave_up, delivered}
use tokenzy.Db.{Database, WebhookRow}
use tokenzy.Db.Tokens.{settled, delete_expired_tokens, delete_settled_tokens}
use tokenzy.Db.Otps.{dead, delete_dead_otps}
use tokenzy.Db.Webhooks.{HeaderJson, is_old, delete_old_deliveries, new_delivery}
use tokenzy.Cleanup
use tokenzy.Cleanup.{Config, default_config, batch_size}
use tokenzy.Cleanup.Drain.{RemovesUpTo, is_expired, drain-exact}
use tokenzy.Cleanup.Safe.{IsUnchanged, sweep-IsUnchanged}
use tokenzy.Webhook.Headers.{
  parse_headers, parse_lines, parse_line, assign, valid_header_name, all_header_bytes, header_byte,
  reserved_header, reserved_in, equal_fold, has_line_break,
}
use tokenzy.Webhook.Headers.Laws.{IsSafe, parse_headers-IsSafe}
use tokenzy.Webhook.Request.{Net, answered, lookup, sign, build_request, post}
use tokenzy.Webhook.Request.Signature.{build_request-headers}
use tokenzy.Webhook.Attempt.{attempt, sweep}
use tokenzy.Webhook.Attempt.Lifecycle.{IsSound, Follows, attempted, attempt-IsSound}
use tokenzy.Webhook.Attempt.Termination.{sweep-ends}
use tokenzy.Examples.Tokens.{store}

drain-exact_example :
    RemovesUpTo
      (λ x. count_where (is_expired 200) x.tokens)
      (delete_expired_tokens 200 batch_size)
      store
    × RemovesUpTo
        (λ x. count_where (settled 200) x.tokens)
        (delete_settled_tokens 200 batch_size)
        store
    × RemovesUpTo (λ x. count_where (dead 200) x.otps) (delete_dead_otps 200 batch_size) store
    × RemovesUpTo
        (λ x. count_where (is_old 200) x.deliveries)
        (delete_old_deliveries 200 batch_size)
        store
drain-exact_example = drain-exact 200 store

abbrev on_time : ℕ → ℕ → Bool
on_time k i = Bool.false

sweep-IsUnchanged_example :
    IsUnchanged
      (50 * second)
      60
      1
      (codes "tkn_a")
      (codes "reset")
      (codes "ada")
      (codes "1234")
      (omega arith)
      store
      (Cleanup.sweep default_config (50 * second) on_time store).after
sweep-IsUnchanged_example =
    sweep-IsUnchanged (50 * second) 60 1 (codes "tkn_a") (codes "reset") (codes "ada")
      (codes "1234") (omega arith) store default_config on_time

abbrev pub json : HeaderJson
json = record { encode = λ m. codes "{}"; decode = λ s. [] }

abbrev pub net : Net
net = record {
  refuses = λ url. none;
  answer = λ r. answered 503 (codes "503 Service Unavailable");
  hmac = λ key body. key ++ body;
}

abbrev pub hook_row : WebhookRow
hook_row = record {
  id = 1;
  environment_id = 1;
  url = codes "https://example.org";
  secret = codes "whsec_1";
  events = [];
  headers = codes "{}";
  label = [];
  include_payload = Bool.false;
  created_at = 0;
  disabled_at = none;
}

abbrev pub hook : Webhook
hook = record {
  id = 1;
  environment_id = 1;
  url = codes "https://example.org";
  secret = codes "whsec_1";
  events = [];
  headers = (codes "x-webhook-signature", codes "forged") ∷ [];
  label = [];
  include_payload = Bool.false;
  created_at = 0;
  disabled_at = none;
}

abbrev pub delivery : WebhookDelivery
delivery = new_delivery 10 1 1 (codes "evt_1") (codes "token.created") (codes "{}")

abbrev pub waiting : Database
waiting = record store { webhooks = hook_row ∷ []; deliveries = delivery ∷ [] }

parse_headers-IsSafe_example : All IsSafe ((codes "X-Team", codes "ops") ∷ [])
unfolding parse_headers parse_lines parse_line assign valid_header_name all_header_bytes header_byte
    reserved_header reserved_in equal_fold has_line_break split_at trim_space strip leading_space
    trailing_space cut str_eq
parse_headers-IsSafe_example =
    parse_headers-IsSafe (codes "X-Team: ops\n") ((codes "X-Team", codes "ops") ∷ []) refl

build_request-headers_example :
    let r = build_request net hook delivery 1 in
    (lookup (codes "X-Webhook-Signature") r.headers ≡ some (sign net hook.secret r.body))
    × (lookup (codes "X-Webhook-Attempt") r.headers ≡ some (show_nat 1))
    × (lookup (codes "X-Webhook-Event") r.headers ≡ some delivery.event_type)
    × (lookup (codes "X-Webhook-Id") r.headers ≡ some delivery.event_id)
    × (lookup (codes "User-Agent") r.headers ≡ some (codes "tokenzy-webhook/1"))
    × (lookup (codes "Content-Type") r.headers ≡ some (codes "application/json; charset=utf-8"))
    × (r.body ≡ delivery.payload)
build_request-headers_example = build_request-headers net hook delivery 1

attempt-IsSound_example :
    All IsSound (attempt net 20 delivery hook waiting).deliveries
    × All
        (λ r. r.id ≡ delivery.id → r ≡ attempted net 20 hook delivery)
        (attempt net 20 delivery hook waiting).deliveries
    × Follows 20 (post net hook delivery 1).1 delivery (attempted net 20 hook delivery)
unfolding pending gave_up delivered
attempt-IsSound_example =
    attempt-IsSound net 20 hook delivery waiting refl (ground arith) ((λ _. refl), tt)
      (ground arith)

sweep-ends_example : (sweep json net (λ k. 20) (λ k. 21) (λ k. Bool.false) 5 0 waiting).0 ≡ true
unfolding pending select_row
sweep-ends_example =
    sweep-ends json net (λ k. 20) (λ k. 21) (λ k. Bool.false) 5 0 waiting ((tt, tt), (refl, tt))
      (omega arith)

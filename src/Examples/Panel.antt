-- ===== src/Examples/Panel.antt =====
-- The pages of the panel at concrete inputs.
use tokenzy.Prelude.{
  inl, inr, ℕ, ◌+◌, ◌*◌, ◌≡◌, refl, Bool, true, false, Option, some, none, List, [], ◌∷◌, ◌++◌, map,
  arith, All, ◌==◌, is_nil, if◌then◌else◌,
}
use tokenzy.Prelude.Int.{pos}
use tokenzy.Prelude.Str.{Str, codes, str_eq}
use tokenzy.Prelude.Text.{trim_space, strip, leading_space, trailing_space, split_at}
use tokenzy.Prelude.Table.{select, select_row, count_where, sort_by, insert_by}
use tokenzy.Ttl
use tokenzy.Ttl.{second, mul_int64}
use tokenzy.Limits as Rules
use tokenzy.Limits.{check_seconds}
use tokenzy.Token.Status.{Status, statuses}
use tokenzy.Token.Limits as TokenLimits
use tokenzy.Token.Limits.{validate_payload, validate_max_uses}
use tokenzy.Token.Generate.{hex, hex_digit}
use tokenzy.Model.{Environment, Project, Token, User, valid_webhook_event}
use tokenzy.Db.{Database, WebhookRow}
use tokenzy.Db.Projects.{get_project_by_slug, get_environment, list_environments}
use tokenzy.Db.Webhooks.{scan_webhook, new_webhook}
use tokenzy.Api.Tokens as Api
use tokenzy.Webhook.Headers.{
  parse_headers, valid_header_name, all_header_bytes, header_byte, reserved_header, reserved_in,
  equal_fold, has_line_break, assign,
}
use tokenzy.Webhook.Target.{validate_url, new_secret}
use tokenzy.Panel.{Request, Scope, resolve_project, resolve_env}
use tokenzy.Panel.Shows.{Shows}
use tokenzy.Panel.Login.{login_submit, protected}
use tokenzy.Panel.Login.{ran, htmx_sent_to}
use tokenzy.Panel.Login.Entry.{protected-anonymous, protected-login_submit}
use tokenzy.Panel.Tokens as Tokens
use tokenzy.Panel.Tokens.{query_of, tokens_view}
use tokenzy.Panel.Tokens.Actions as TokenPages
use tokenzy.Panel.Tokens.Issue.{shown, answered, fresh_of, request_of, create_token-eq-create}
use tokenzy.Panel.Tokens.Chips.{
  with_status, names_of, counts_of, addresses_of, active_of, tokens_view-chips,
}
use tokenzy.Panel.Tokens.Masked as TokenMask
use tokenzy.Panel.Otps as Otps
use tokenzy.Panel.Otps.Actions as OtpPages
use tokenzy.Panel.Otps.Masked as OtpMask
use tokenzy.Panel.Masked.{pages-IsMasked}
use tokenzy.Panel.Webhooks as Webhooks
use tokenzy.Panel.Webhooks.Actions as WebhookPages
use tokenzy.Panel.Webhooks.Created.{create_webhook-stored}
use tokenzy.Examples.Tokens.{store}
use tokenzy.Examples.Api.{prod, texts, day, bytes}

abbrev shop : Project
shop = record { id = 1; slug = codes "shop"; name = codes "Shop"; created_at = 0 }

abbrev site_db : Database
site_db = record store { projects = shop ∷ []; environments = prod ∷ [] }

abbrev visit : Request
visit = record {
  user = none;
  slug = codes "shop";
  env = codes "prod";
  id = codes "t1";
  htmx = true;
  now = 20 * second;
}

abbrev print : ℕ → Str
print ts = codes "then"

abbrev site : Tokens.Site
site = record { limits = day; print = print; indent = λ s. none }

abbrev codes_site : Otps.Site
codes_site = record { limits = day; print = print }

abbrev all_codes : Otps.OtpFilterState
all_codes = record { status = []; otp_type = []; identifier = [] }

abbrev scope : Scope
scope = record { project = shop; env = prod; envs = prod ∷ [] }

pages-IsMasked_example :
    (Shows TokenMask.IsClean (TokenPages.tokens_page site visit [] site_db)
      × Shows TokenMask.IsClean (TokenPages.token_rows site visit [] [] site_db)
      × Shows TokenMask.IsMasked (TokenPages.token_detail site visit [] site_db)
      × Shows TokenMask.IsMasked (TokenPages.token_row site visit [] site_db)
      × Shows TokenMask.IsMasked (TokenPages.revoke_token site visit [] site_db).0
      × Shows TokenMask.IsClean (TokenPages.delete_token site visit [] site_db).0)
    × (Shows OtpMask.IsClean (OtpPages.otps_page codes_site visit all_codes site_db)
        × Shows OtpMask.IsClean (OtpPages.otp_rows codes_site visit all_codes [] site_db)
        × Shows OtpMask.IsMasked (OtpPages.otp_detail codes_site visit all_codes site_db)
        × Shows OtpMask.IsMasked (OtpPages.otp_row codes_site visit all_codes site_db)
        × Shows OtpMask.IsMasked (OtpPages.revoke_otp codes_site visit all_codes site_db).0
        × Shows OtpMask.IsClean (OtpPages.delete_otp codes_site visit all_codes site_db).0)
pages-IsMasked_example = pages-IsMasked site codes_site visit [] [] all_codes site_db

tokens_view-chips_example :
    let view = tokens_view site visit (query_of scope (codes "expired")) site_db in
    let on_env = count_where (λ (t : Token). t.environment_id == 1) site_db.tokens in
    (names_of view.chips
      ≡ ([], codes "All")
        ∷ (codes "active", codes "active")
        ∷ (codes "expired", codes "expired")
        ∷ (codes "exhausted", codes "exhausted")
        ∷ (codes "revoked", codes "revoked")
        ∷ [])
    × (counts_of view.chips
        ≡ view.total
          ∷ map (λ (s : Status). count_where (with_status 20 1 s) site_db.tokens) statuses)
    × (view.total ≡ on_env)
    × (addresses_of view.chips
        ≡ Tokens.tokens_base scope
          ∷ map
              (λ (s : Str). Tokens.tokens_base scope ++ codes "?status=" ++ s)
              (codes "active" ∷ codes "expired" ∷ codes "exhausted" ∷ codes "revoked" ∷ []))
    × (active_of view.chips ≡ false ∷ false ∷ true ∷ false ∷ false ∷ [])
unfolding str_eq
tokens_view-chips_example = tokens_view-chips site visit (query_of scope (codes "expired")) site_db

abbrev form : Tokens.TokenForm
form = record {
  payload = codes "{}";
  ttl_value = codes " 1";
  ttl_unit = codes "minute";
  max_uses = codes "3";
}

abbrev accepted_form : TokenPages.Checked
accepted_form = record { payload = codes "{}"; ttl = pos (60 * second); max_uses = some (pos 3) }

abbrev entropy : TokenPages.Entropy
entropy = record { id_bytes = some bytes; first_bytes = some bytes; second_bytes = some bytes }

create_token-eq-create_example :
    let panel = TokenPages.create_token texts site visit [] form entropy site_db in
    let api =
      Api.create texts day
        (fresh_of visit entropy)
        1
        (request_of form accepted_form (pos 60))
        site_db in
    (shown panel.0 ≡ answered api.0) × (panel.1 ≡ api.1)
unfolding resolve_env resolve_project get_project_by_slug get_environment list_environments
    select_row select sort_by insert_by str_eq TokenPages.check_form TokenPages.read_max_uses
    validate_payload validate_max_uses TokenLimits.parse_ttl TokenLimits.validate_ttl
    Rules.validate_ttl Rules.ceiling check_seconds mul_int64 Ttl.parse Ttl.parse_amount
    Ttl.lookup_unit Ttl.find_unit tokenzy.Prelude.Decimal.parse_int64 trim_space strip leading_space
    trailing_space
create_token-eq-create_example =
    create_token-eq-create texts site visit [] form entropy site_db scope accepted_form (pos 60)
      refl refl refl

abbrev ada : User
ada = record { id = 3; username = codes "ada"; password_hash = codes "h"; created_at = 0 }

abbrev staffed : Database
staffed = record site_db { users = ada ∷ [] }

abbrev peek : Request → Database → ℕ × Database
peek r d = (7, d)

protected-anonymous_example :
    ((protected visit (codes "guess") peek staffed).0 ≡ htmx_sent_to 401 (codes "/ui/login"))
    × ((protected visit (codes "guess") peek staffed).1
        ≡ record staffed { sessions = (protected visit (codes "guess") peek staffed).1.sessions })
unfolding select_row str_eq
protected-anonymous_example =
    protected-anonymous visit (codes "guess") peek staffed (inr (inl refl))

protected-login_submit_example :
    let s =
      login_submit (λ p h. some true) 10 (some (0 ∷ 255 ∷ [])) (codes "ada") (codes "pw") staffed in
    (s.cookie ≡ some (hex (0 ∷ 255 ∷ [])))
    × (protected visit (hex (0 ∷ 255 ∷ [])) peek s.db ≡ (ran 7, s.db))
unfolding hex hex_digit select_row str_eq tokenzy.Db.Users.get_user_by_username
protected-login_submit_example =
    protected-login_submit (λ p h. some true) 10 (0 ∷ 255 ∷ []) (codes "ada") (codes "pw") staffed
      ada visit peek refl refl refl refl refl refl

abbrev hooks : Webhooks.Site
hooks = record {
  running = true;
  json = record { encode = λ h. codes "{}"; decode = λ s. (codes "X-Team", codes "ops") ∷ [] };
  parse_url = λ s. some (record { scheme = codes "https"; host = codes "example.org" });
  print = print;
}

abbrev fields : WebhookPages.Fields
fields = record {
  url = codes "https://example.org ";
  label = codes " till";
  headers = codes "X-Team: ops";
  events = codes "token.created" ∷ codes " " ∷ codes "token.revoked" ∷ [];
  include_payload = codes "1";
}

abbrev accepted_hook : WebhookPages.Checked
accepted_hook = record {
  events = codes "token.created" ∷ codes "token.revoked" ∷ [];
  headers = (codes "X-Team", codes "ops") ∷ [];
}

create_webhook-stored_example :
    (w : WebhookRow) × ((WebhookPages.create_webhook hooks visit fields
        (some bytes)
        site_db).1.webhooks
      ≡ site_db.webhooks ++ (w ∷ []))
    × (scan_webhook hooks.json w
        ≡ new_webhook 20 w.id 1
            (trim_space fields.url)
            (codes "whsec_" ++ hex bytes)
            accepted_hook.events
            accepted_hook.headers
            (trim_space fields.label)
            (str_eq fields.include_payload (codes "1")))
    × All (λ (e : Str). valid_webhook_event e ≡ true) accepted_hook.events
    × (parse_headers (codes "X-Team: ops") ≡ tokenzy.Webhook.Headers.ok accepted_hook.headers)
unfolding resolve_env resolve_project get_project_by_slug get_environment list_environments
    select_row select sort_by insert_by str_eq WebhookPages.check_form WebhookPages.read_events
    validate_url new_secret valid_webhook_event tokenzy.Model.contains parse_headers
    tokenzy.Webhook.Headers.parse_lines tokenzy.Webhook.Headers.parse_line split_at trim_space strip
    leading_space trailing_space tokenzy.Prelude.Text.cut valid_header_name all_header_bytes
    header_byte reserved_header reserved_in equal_fold has_line_break assign
create_webhook-stored_example =
    create_webhook-stored hooks visit fields (some bytes) site_db scope accepted_hook
      (codes "whsec_" ++ hex bytes) refl refl refl refl refl

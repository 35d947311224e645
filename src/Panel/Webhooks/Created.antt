-- ===== src/Panel/Webhooks/Created.antt =====
-- The webhook that the form asks for is the one that is stored.
use tokenzy.Prelude.{
  ℕ, ◌≡◌, refl, ap, ◌∙◌, Bool, true, false, Option, some, List, [], ◌∷◌, ◌++◌, arith, All, ◌==◌,
  ◌&&◌, is_nil, is_some, not, map, subst,
}
use tokenzy.Prelude.Str.{Str, codes, str_eq}
use tokenzy.Prelude.Text.{trim_space}
use tokenzy.Prelude.Table.{select, select_row, next_rowid}
use tokenzy.Model.{Environment, valid_webhook_event}
use tokenzy.Db.{Database, WebhookRow, ok}
use tokenzy.Db.Projects.{get_environment}
use tokenzy.Db.Webhooks as Store
use tokenzy.Db.Webhooks.{HeaderJson, scan_webhook, new_row, new_webhook, env_exists, split_events}
use tokenzy.Db.Webhooks.Subscription.{split_events-join_with}
use tokenzy.Webhook.Headers as Headers
use tokenzy.Webhook.Headers.{parse_headers}
use tokenzy.Webhook.Target.{new_secret}
use tokenzy.Panel.{Request, unix, Scope, found, resolve_env}
use tokenzy.Panel.Webhooks.{Site}
use tokenzy.Panel.Webhooks.Actions.{
  Fields, Checked, accepted, chosen, read_events, check_form, read_form, create_webhook,
}

read_events-valid :
    (raw events : List Str)
    → read_events raw ≡ chosen events
    → All (λ (e : Str). valid_webhook_event e ≡ true) events
unfolding read_events
read_events-valid [] [] h = tt
read_events-valid [] (e ∷ es) h = absurd (cc)
read_events-valid (r ∷ raw) [] h = tt
read_events-valid (r ∷ raw) (e ∷ es) h =
    ground (arith, read_events-valid raw (e ∷ es), read_events-valid raw es)

-- What an accepted form says of the parts of it.
check_form-parts :
    (site : Site) (f : Fields) (c : Checked)
    → check_form site f ≡ accepted c
    → (read_events f.events ≡ chosen c.events) × (parse_headers f.headers ≡ Headers.ok c.headers)
unfolding check_form
check_form-parts site f c h = (ground arith, ground arith)

-- The events of the ticked boxes: those that are not blank, trimmed, in their order.
abbrev pub ticked : List Str → List Str
ticked raw = map trim_space (select (λ (e : Str). not (is_nil (trim_space e))) raw)

read_events-ticked : (raw events : List Str) → read_events raw ≡ chosen events → events ≡ ticked raw
unfolding read_events select
read_events-ticked [] events h = ground arith
read_events-ticked (r ∷ raw) [] h = ground (arith, read_events-ticked raw [])
read_events-ticked (r ∷ raw) (e ∷ es) h =
    ground (arith, read_events-ticked raw es, read_events-ticked raw (e ∷ es))

select_row-any :
    (p q : Environment → Bool) (es : List Environment) (e : Environment)
    → select_row p es ≡ some e
    → q e ≡ true
    → is_some (select_row q es) ≡ true
unfolding select_row
select_row-any p q [] e h k = absurd (cc)
select_row-any p q (x ∷ xs) e h k = ground (arith, select_row-any p q xs e)

get_environment-exists :
    (p : ℕ) (slug : Str) (d : Database) (e : Environment)
    → get_environment p slug d ≡ ok e
    → env_exists e.id d.environments ≡ true
unfolding get_environment
get_environment-exists p slug d e h = ground (
  arith,
  select_row-any (λ (x : Environment). x.project_id == p && str_eq x.slug slug)
      (λ (x : Environment). x.id == e.id) d.environments e,
)

resolve_env-get :
    (r : Request) (d : Database) (s : Scope)
    → resolve_env r d ≡ found s
    → get_environment s.project.id r.env d ≡ ok s.env
unfolding resolve_env
resolve_env-get r d s h = ground arith

resolve_env-exists :
    (r : Request) (d : Database) (s : Scope)
    → resolve_env r d ≡ found s
    → env_exists s.env.id d.environments ≡ true
resolve_env-exists r d s h =
    get_environment-exists s.project.id r.env d s.env (resolve_env-get r d s h)

scan_webhook-new_row :
    (json : HeaderJson) (ts id env : ℕ) (url secret : Str) (events : List Str)
    (headers : List (Str × Str)) (label : Str) (include_payload : Bool)
    → All (λ (e : Str). valid_webhook_event e ≡ true) events
    → json.decode (json.encode headers) ≡ headers
    → is_nil (json.encode headers) ≡ false
    → scan_webhook json (new_row json ts id env url secret events headers label include_payload)
      ≡ new_webhook ts id env url secret events headers label include_payload
unfolding scan_webhook
scan_webhook-new_row json ts id env url secret events headers label include_payload h k l =
    rw (split_events-join_with events h) (rw l (rw k refl))

create_webhook-appends :
    (json : HeaderJson) (ts env : ℕ) (url secret : Str) (events : List Str)
    (headers : List (Str × Str)) (label : Str) (include_payload : Bool) (d : Database)
    → env_exists env d.environments ≡ true
    → (Store.create_webhook json ts env url secret events headers label include_payload
        d).1.webhooks
      ≡ d.webhooks
        ++ (new_row json ts
              (next_rowid (λ (w : WebhookRow). w.id) d.webhooks)
              env
              url
              secret
              events
              headers
              label
              include_payload
            ∷ [])
unfolding Store.create_webhook
create_webhook-appends json ts env url secret events headers label include_payload d h =
    ground arith

-- the database behind an accepted form
create_webhook-db :
    (site : Site) (r : Request) (f : Fields) (buf : Option Str) (d : Database) (scope : Scope)
    (c : Checked) (secret : Str)
    → resolve_env r d ≡ found scope
    → check_form site f ≡ accepted c
    → new_secret buf ≡ some secret
    → (create_webhook site r f buf d).1
      ≡ (Store.create_webhook site.json
          (unix r)
          scope.env.id
          (trim_space f.url)
          secret
          c.events
          c.headers
          (trim_space f.label)
          (str_eq f.include_payload (codes "1"))
          d).1
unfolding create_webhook read_form
create_webhook-db site r f buf d scope c secret h k l = ground arith

-- What an accepted form stores: behind the request the table has one row more, and that row reads
-- back as the webhook that the form describes, enabled, with the URL and the label trimmed, the
-- events of the ticked boxes (those that are not blank, trimmed and in their order, each of them a
-- known one), the headers that the text of the form parses to and the fresh secret. The JSON of
-- these headers is assumed to decode to them and not to be empty.
pub create_webhook-stored :
    (site : Site) (r : Request) (f : Fields) (buf : Option Str) (d : Database) (scope : Scope)
    (c : Checked) (secret : Str)
    → resolve_env r d ≡ found scope
    → check_form site f ≡ accepted c
    → new_secret buf ≡ some secret
    → site.json.decode (site.json.encode c.headers) ≡ c.headers
    → is_nil (site.json.encode c.headers) ≡ false
    → (w : WebhookRow) × ((create_webhook site r f buf d).1.webhooks ≡ d.webhooks ++ (w ∷ []))
      × (scan_webhook site.json w
          ≡ new_webhook
              (unix r)
              w.id
              scope.env.id
              (trim_space f.url)
              secret
              (ticked f.events)
              c.headers
              (trim_space f.label)
              (str_eq f.include_payload (codes "1")))
      × All (λ (e : Str). valid_webhook_event e ≡ true) (ticked f.events)
      × (parse_headers f.headers ≡ Headers.ok c.headers)
create_webhook-stored site r f buf d scope c secret h k l m n =
    let (read, parsed) = check_form-parts site f c k in
    let valid = read_events-valid f.events c.events read in
    let boxes = read_events-ticked f.events c.events read in
    (
      new_row site.json (unix r) (next_rowid (λ (w : WebhookRow). w.id) d.webhooks) scope.env.id
          (trim_space f.url) secret c.events c.headers (trim_space f.label)
          (str_eq f.include_payload (codes "1")),
      ap (λ (e : Database). e.webhooks) (create_webhook-db site r f buf d scope c secret h k l)
          ∙ create_webhook-appends site.json (unix r) scope.env.id _ secret c.events c.headers _ _ d
              (resolve_env-exists r d scope h),
      scan_webhook-new_row site.json (unix r) _ scope.env.id _ secret c.events c.headers _ _ valid m
            n
          ∙ ap
              (λ es.
                new_webhook (unix r) (next_rowid (λ (w : WebhookRow). w.id) d.webhooks) scope.env.id
                  (trim_space f.url) secret es c.headers (trim_space f.label)
                  (str_eq f.include_payload (codes "1")))
              boxes,
      subst (All (λ (e : Str). valid_webhook_event e ≡ true)) boxes valid,
      parsed,
    )

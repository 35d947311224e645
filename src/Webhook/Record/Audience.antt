-- ===== src/Webhook/Record/Audience.antt =====
-- Recording an event serves the webhooks that are enabled and subscribe to it.
use tokenzy.Prelude.{
  ℕ, ◌≡◌, refl, sym, subst, ap, ◌∙◌, Bool, true, false, not, some, List, [], ◌∷◌, ◌++◌, map, arith,
  is_nil, All, All-map, Bool-cases, inl, inr, if◌then◌else◌,
}
use mathlib.Core.List.{append-nil}
use tokenzy.Prelude.Str.{Str, codes}
use tokenzy.Prelude.Table.{select, select_row, sort_by, insert_by}
use tokenzy.Db.Listing.Select.{select-All}
use tokenzy.Token.Generate.{hex}
use tokenzy.Model.{Environment, Webhook, WebhookDelivery, event_name, subscribes}
use tokenzy.Db.{Database, WebhookRow, TokenEvent}
use tokenzy.Db.Projects.{is_environment, get_environment_by_id}
use tokenzy.Db.Webhooks.{HeaderJson, enabled_in, lowest_first, list_enabled_webhooks, scan_webhook}
use tokenzy.Webhook.Record.{Format, EventBody, new_event_id, fan_out, record_event}
use tokenzy.Webhook.Record.Listeners.{AreListeners, listed-AreListeners}
use tokenzy.Webhook.Record.Fanout.{HasRow, recipients, fan_out-recipients}

rows-HasRow : (ws : List WebhookRow) → All (λ (w : WebhookRow). HasRow ws w.id) ws
unfolding select_row
rows-HasRow [] = tt
rows-HasRow (w ∷ ws) = (
  ground arith,
  All-map (λ (v : WebhookRow). HasRow ws v.id) (λ (v : WebhookRow). HasRow (w ∷ ws) v.id) ws
      (λ v h. ground arith) (rows-HasRow ws),
)

insert_by-All {κ} :
    (P : WebhookRow → Type κ) (w : WebhookRow) (ws : List WebhookRow)
    → P w
    → All P ws
    → All P (insert_by lowest_first w ws)
unfolding insert_by
insert_by-All P w [] h l = (h, tt)
insert_by-All P w (v ∷ ws) h l = elim (Bool-cases (lowest_first v w)) [
  | inl e ↦ rw e (l.0, insert_by-All P w ws h l.1)
  | inr e ↦ rw e (h, l)
]

sort_by-All {κ} :
    (P : WebhookRow → Type κ) (ws : List WebhookRow) → All P ws → All P (sort_by lowest_first ws)
unfolding sort_by
sort_by-All P [] h = tt
sort_by-All P (w ∷ ws) h = insert_by-All P w (sort_by lowest_first ws) h.0 (sort_by-All P ws h.1)

scanned-HasRow :
    (json : HeaderJson) (all ws : List WebhookRow)
    → All (λ (w : WebhookRow). HasRow all w.id) ws
    → All (λ (h : Webhook). HasRow all h.id) (map (scan_webhook json) ws)
unfolding scan_webhook
scanned-HasRow json all [] h = tt
scanned-HasRow json all (w ∷ ws) h = (h.0, scanned-HasRow json all ws h.1)

list_enabled_webhooks-HasRow :
    (json : HeaderJson) (env : ℕ) (d : Database)
    → All (λ (h : Webhook). HasRow d.webhooks h.id) (list_enabled_webhooks json env d)
unfolding list_enabled_webhooks
list_enabled_webhooks-HasRow json env d =
    scanned-HasRow json d.webhooks _
      (sort_by-All _ _ (select-All _ (enabled_in env) d.webhooks (rows-HasRow d.webhooks)))

-- The webhooks of the event's environment that are enabled and subscribe to its type, by id.
abbrev pub audience : HeaderJson → TokenEvent → Database → List Webhook
audience json ev d =
    select (λ h. subscribes h (event_name ev.event_type)) (list_enabled_webhooks json ev.env_id d)

recorded-none :
    (json : HeaderJson) (fmt : Format) (ts : ℕ) (buf : Str) (ev : TokenEvent) (d : Database)
    → is_nil (list_enabled_webhooks json ev.env_id d) ≡ true
    → record_event json fmt ts (some buf) ev d ≡ (false, d)
unfolding record_event
recorded-none json fmt ts buf ev d n = rw (n, record_event) refl

recorded-some :
    (json : HeaderJson) (fmt : Format) (ts : ℕ) (buf : Str) (ev : TokenEvent) (env : Environment)
    (d : Database)
    → is_nil (list_enabled_webhooks json ev.env_id d) ≡ false
    → select_row (is_environment ev.env_id) d.environments ≡ some env
    → let (done, (queued, d')) =
        fan_out fmt ts
          (codes "evt_" ++ hex buf)
          env.slug
          ev
          (list_enabled_webhooks json ev.env_id d)
          d in
      record_event json fmt ts (some buf) ev d ≡ (if done then queued else false, d')
unfolding record_event get_environment_by_id new_event_id
recorded-some json fmt ts buf ev env d n e =
    rw (n, record_event) (rw (e, get_environment_by_id) refl)

abbrev IsRecorded : HeaderJson → TokenEvent → Database → Bool × Database → Type 0
IsRecorded json ev d (nudged, d') =
    (nudged ≡ not (is_nil (audience json ev d)))
    × (recipients d'.deliveries
        ≡ recipients d.deliveries ++ map (λ (h : Webhook). h.id) (audience json ev d))

nobody :
    (ev : TokenEvent) (d : Database) (hooks : List Webhook)
    → is_nil hooks ≡ true
    → let heard = select (λ h. subscribes h (event_name ev.event_type)) hooks in
      (false ≡ not (is_nil heard))
      × (recipients d.deliveries ≡ recipients d.deliveries ++ map (λ (h : Webhook). h.id) heard)
unfolding select
nobody ev d [] h = (refl, sym (append-nil (recipients d.deliveries)))
nobody ev d (x ∷ hooks) h = absurd (cc)

is_nil-map {ℓ κ} :
    {A : Type ℓ} {B : Type κ} (f : A → B) (xs : List A) → is_nil (map f xs) ≡ is_nil xs
is_nil-map f [] = refl
is_nil-map f (x ∷ xs) = refl

-- Undisturbed by other writers, where the event's environment exists, its random id is drawn and
-- JSON does not fail, recording an event adds one delivery for each webhook that is of the
-- environment, not disabled, and for all events or for one of the event's type, by the rows of the
-- table: in the ascending order of their ids, and no other. It wakes the sender exactly when there
-- is one.
pub record_event-audience :
    (json : HeaderJson) (fmt : Format) (ts : ℕ) (buf : Str) (ev : TokenEvent) (env : Environment)
    (d : Database)
    → ((b : EventBody) → (s : Str) × (fmt.marshal b ≡ some s))
    → select_row (is_environment ev.env_id) d.environments ≡ some env
    → let (nudged, d') = record_event json fmt ts (some buf) ev d in
      (ids : List ℕ) × AreListeners ev d.webhooks ids
      × (map (λ (x : WebhookDelivery). x.webhook_id) d'.deliveries
          ≡ map (λ (x : WebhookDelivery). x.webhook_id) d.deliveries ++ ids)
      × (nudged ≡ not (is_nil ids))
record_event-audience json fmt ts buf ev env d marshals e =
    let hooks = list_enabled_webhooks json ev.env_id d in
    let (nudge, rows) : IsRecorded json ev d (record_event json fmt ts (some buf) ev d) =
      elim (Bool-cases (is_nil hooks)) [
        | inl n ↦
            subst (IsRecorded json ev d) (sym (recorded-none json fmt ts buf ev d n))
              (nobody ev d hooks n)
        | inr n ↦
            let (done, queued, rows) =
              fan_out-recipients fmt marshals ts ev (codes "evt_" ++ hex buf) env.slug hooks d
                (list_enabled_webhooks-HasRow json ev.env_id d) in
            subst (IsRecorded json ev d) (sym (recorded-some json fmt ts buf ev env d n e))
              (rw done (queued, rows))
      ] in
    (
      map (λ (h : Webhook). h.id) (audience json ev d),
      listed-AreListeners json ev d,
      rows,
      nudge ∙ ap not (sym (is_nil-map (λ (h : Webhook). h.id) (audience json ev d))),
    )

-- ===== src/Webhook/Record/Fanout.antt =====
-- Who gets a delivery of an event.
use tokenzy.Prelude.{
  ℕ, ◌≡◌, refl, sym, subst, ap, ◌∙◌, Bool, true, false, not, some, List, [], ◌∷◌, ◌++◌, map, arith,
  is_some, is_nil, All, Bool-cases, Option-cases, inl, inr, ◌==◌,
}
use mathlib.Core.List.{append_assoc, append-nil}
use tokenzy.Prelude.Str.{Str}
use tokenzy.Prelude.Table.{select, select_row, next_rowid}
use tokenzy.Model.{Webhook, WebhookDelivery, event_name, subscribes}
use tokenzy.Db.{Database, WebhookRow, TokenEvent, ok}
use tokenzy.Db.Webhooks.{new_delivery, enqueue_delivery}
use tokenzy.Webhook.Record.{Format, EventBody, token_data, build_payload, fan_out}

abbrev pub HasRow : List WebhookRow → ℕ → Type 0
HasRow ws id = is_some (select_row (λ (w : WebhookRow). w.id == id) ws) ≡ true

pub enqueued :
    (ts webhook : ℕ) (event_id event_type payload : Str) (d : Database)
    → HasRow d.webhooks webhook
    → let x =
        new_delivery ts
          (next_rowid (λ (y : WebhookDelivery). y.id) d.deliveries)
          webhook
          event_id
          event_type
          payload in
      enqueue_delivery ts webhook event_id event_type payload d
      ≡ (ok x, record d { deliveries = d.deliveries ++ x ∷ [] })
unfolding enqueue_delivery
enqueued ts webhook event_id event_type payload d h =
    elim (Option-cases (select_row (λ (w : WebhookRow). w.id == webhook) d.webhooks)) [
      | inl e ↦ absurd (ground arith)
      | inr (w, e) ↦ rw (e, enqueue_delivery) refl
    ]

abbrev pub recipients : List WebhookDelivery → List ℕ
recipients rows = map (λ (x : WebhookDelivery). x.webhook_id) rows

recipients-append :
    (rows : List WebhookDelivery) (x : WebhookDelivery)
    → recipients (rows ++ x ∷ []) ≡ recipients rows ++ x.webhook_id ∷ []
recipients-append [] x = refl
recipients-append (y ∷ rows) x = ap (◌∷◌ y.webhook_id) (recipients-append rows x)

module _ (fmt : Format) (marshals : (b : EventBody) → (s : Str) × (fmt.marshal b ≡ some s)) (ts : ℕ)
    (ev : TokenEvent) where
  abbrev interested : Webhook → Bool
  interested h = subscribes h (event_name ev.event_type)

  abbrev Told : Str → Str → List Webhook → Database → Bool × (Bool × Database) → Type 0
  Told event_id slug hooks d (done, (queued, d')) =
      (done ≡ true)
      × (queued ≡ not (is_nil (select interested hooks)))
      × (recipients d'.deliveries
          ≡ recipients d.deliveries ++ map (λ (h : Webhook). h.id) (select interested hooks))

  passed :
      (event_id slug : Str) (hook : Webhook) (hooks : List Webhook) (d : Database)
      → interested hook ≡ false
      → fan_out fmt ts event_id slug ev (hook ∷ hooks) d ≡ fan_out fmt ts event_id slug ev hooks d
  unfolding fan_out
  passed event_id slug hook hooks d e = rw (e, fan_out) refl

  abbrev queue_row : Str → Webhook → Str → Database → Database
  queue_row event_id hook body d = record d {
    deliveries =
        d.deliveries
        ++ new_delivery ts (next_rowid (λ (y : WebhookDelivery). y.id) d.deliveries) hook.id
            event_id (event_name ev.event_type) body
          ∷ [];
  }

  built :
      (event_id slug : Str) (hook : Webhook)
      → (body : Str) × (build_payload fmt ts event_id
            (event_name ev.event_type)
            slug
            ev.tok
            hook.include_payload
          ≡ some body)
  unfolding build_payload
  built event_id slug hook = marshals (record {
    id = event_id;
    event_type = event_name ev.event_type;
    created_at = fmt.rfc3339 ts;
    environment = slug;
    token = some (token_data fmt ts ev.tok hook.include_payload);
  })

  told :
      (event_id slug : Str) (hook : Webhook) (hooks : List Webhook) (d : Database)
      → interested hook ≡ true
      → HasRow d.webhooks hook.id
      → (body : Str) × (fan_out fmt ts event_id slug ev (hook ∷ hooks) d ≡ (
        (fan_out fmt ts event_id slug ev hooks (queue_row event_id hook body d)).0,
        (true, (fan_out fmt ts event_id slug ev hooks (queue_row event_id hook body d)).1.1),
      ))
  unfolding fan_out
  told event_id slug hook hooks d e h =
      let (body, m) = built event_id slug hook in
      let q = enqueued ts hook.id event_id (event_name ev.event_type) body d h in
      (
        body,
        rw (e, fan_out)
            (rw m (
              rw q (
                ap
                  (λ p. (
                    (fan_out fmt ts event_id slug ev hooks p.1).0,
                    (true, (fan_out fmt ts event_id slug ev hooks p.1).1.1),
                  ))
                  q))),
      )

  -- One row for each interested webhook, in their order.
  pub fan_out-recipients :
      (event_id slug : Str) (hooks : List Webhook) (d : Database)
      → All (λ (h : Webhook). HasRow d.webhooks h.id) hooks
      → Told event_id slug hooks d (fan_out fmt ts event_id slug ev hooks d)
  unfolding fan_out select
  fan_out-recipients event_id slug [] d l = (refl, refl, sym (append-nil (recipients d.deliveries)))
  fan_out-recipients event_id slug (hook ∷ hooks) d l = elim (Bool-cases (interested hook)) [
    | inl e ↦
        let (body, t) = told event_id slug hook hooks d e l.0 in
        let (done, queued, rows) =
          fan_out-recipients event_id slug hooks (queue_row event_id hook body d) l.1 in
        subst (Told event_id slug (hook ∷ hooks) d) (sym t) (
          rw e (
            done,
            refl,
            rows
                ∙ ap (λ (r : List ℕ). r ++ map (λ (h : Webhook). h.id) (select interested hooks))
                    (recipients-append d.deliveries _)
                ∙ append_assoc (recipients d.deliveries) (hook.id ∷ []) _,
          ))
    | inr e ↦
        subst (Told event_id slug (hook ∷ hooks) d) (sym (passed event_id slug hook hooks d e))
          (rw e (fan_out-recipients event_id slug hooks d l.1))
  ]

-- ===== src/Webhook/Loops/Written.antt =====
-- What a write of a delivery leaves in the table.
use tokenzy.Prelude.{
  ℕ, ◌≤◌, ◌≡◌, ◌⊎◌, refl, sym, subst, true, none, arith, Option-cases, inl, inr, All, All-append,
  ◌==◌,
}
use tokenzy.Prelude.Str.{Str}
use tokenzy.Prelude.Table.{select_row}
use tokenzy.Model.{WebhookDelivery}
use tokenzy.Db.{Database, WebhookRow, Result, ok, err, failure}
use tokenzy.Db.Webhooks.{is_due, enqueue_delivery}
use tokenzy.Webhook.Record.Fanout.{HasRow, enqueued}
use tokenzy.Webhook.Attempt.Termination.{HasHook}

-- An attempt was made at the delivery.
abbrev pub IsTried : WebhookDelivery → Type 0
IsTried r = 1 ≤ r.attempt

-- An attempt was made at the delivery, or it is due.
abbrev pub IsReady : ℕ → WebhookDelivery → Type 0
IsReady now r = IsTried r ⊎ (is_due now r ≡ true)

abbrev pub IsWell : ℕ → Database → Type 0
IsWell now d = All (IsReady now) d.deliveries × All (HasHook d) d.deliveries

-- An error leaves the database as it is, and a row that is written is due.
abbrev pub IsFiled : ℕ → Database → Result WebhookDelivery × Database → Type 0
IsFiled now d (err e, d') = d' ≡ d
IsFiled now d (ok x, d') = IsWell now d → IsWell now d'

refused :
    (ts webhook : ℕ) (event_id event_type payload : Str) (d : Database)
    → select_row (λ (w : WebhookRow). w.id == webhook) d.webhooks ≡ none
    → enqueue_delivery ts webhook event_id event_type payload d ≡ (err failure, d)
unfolding enqueue_delivery
refused ts webhook event_id event_type payload d e = rw (e, enqueue_delivery) refl

pub enqueue_delivery-IsFiled :
    (ts webhook : ℕ) (event_id event_type payload : Str) (d : Database)
    → IsFiled ts d (enqueue_delivery ts webhook event_id event_type payload d)
unfolding is_due
enqueue_delivery-IsFiled ts webhook event_id event_type payload d =
    elim (Option-cases (select_row (λ (w : WebhookRow). w.id == webhook) d.webhooks)) [
      | inl e ↦ subst (IsFiled ts d) (sym (refused ts webhook event_id event_type payload d e)) refl
      | inr (w, e) ↦
          let h : HasRow d.webhooks webhook = ground arith in
          subst (IsFiled ts d) (sym (enqueued ts webhook event_id event_type payload d h)) (λ k. (
            All-append (IsReady ts) d.deliveries _ k.0 (inr (ground arith), tt),
            All-append (HasHook d) d.deliveries _ k.1 (h, tt),
          ))
    ]

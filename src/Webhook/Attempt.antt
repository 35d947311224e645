-- ===== src/Webhook/Attempt.antt =====
-- One attempt at a delivery and the sweep over what is due (internal/webhook/dispatch.go). The
-- attempts of one batch run concurrently in the program; each writes the row of its own delivery
-- only, so they are taken in the order of the batch.
pub mod Lifecycle
pub mod Rows
pub mod Batch
pub mod Termination
pub mod Listed
pub mod Complete
use tokenzy.Prelude.{
  ℕ, zero, suc, ◌+◌, ◌-◌, Bool, true, false, Option, none, some, List, [], ◌∷◌, leb, ltb, is_nil,
  length, get_elem?, if◌then◌else◌,
}
use tokenzy.Prelude.Str.{Str}
use tokenzy.Model.{Webhook, WebhookDelivery}
use tokenzy.Db.{Database, ok, err}
use tokenzy.Db.Webhooks.{HeaderJson, due_deliveries, get_webhook_by_id, record_delivery_result}
use tokenzy.Webhook.Request.{Net, post}

-- `retrySchedule`, in seconds.
abbrev pub retry_schedule : List ℕ
retry_schedule = 30 ∷ 120 ∷ 600 ∷ []

abbrev pub sweep_batch : ℕ
sweep_batch = 50

-- When the attempt after the n-th is due, if there is one.
unfoldable pub retry_at : ℕ → ℕ → Option ℕ
retry_at ts n =
    if leb n (length retry_schedule)
    then elim (get_elem? retry_schedule (n - 1)) [ none ↦ none | some delay ↦ some (ts + delay) ]
    else none

-- `attempt`, which learns of the outcome at the time ts.
unfoldable pub attempt : Net → ℕ → WebhookDelivery → Webhook → Database → Database
attempt net ts delivery hook d =
    let n = delivery.attempt + 1 in
    let (status, error) = post net hook delivery n in
    elim error [
      | none ↦ record_delivery_result ts delivery.id n status [] none true d
      | some e ↦ record_delivery_result ts delivery.id n status e (retry_at ts n) false d
    ]

-- The attempts of a batch; a delivery whose webhook cannot be loaded is passed over. Webhooks do
-- not change meanwhile, so the map of those already loaded is left out.
unfoldable pub attempt_all : HeaderJson → Net → ℕ → List WebhookDelivery → Database → Database
attempt_all json net ts [] d = d
attempt_all json net ts (x ∷ batch) d =
    attempt_all json net ts batch (elim (get_webhook_by_id json x.webhook_id d) [
      | err e ↦ d
      | ok hook ↦ attempt net ts x hook d
    ])

-- `sweep`: batch after batch until one comes back short or the context is cancelled. The k-th batch
-- is read at the time `clock k`, its outcomes are written at `done k`, and the fuel bounds the
-- batches; the flag says that the loop came to its own end.
unfoldable pub sweep :
    HeaderJson → Net → (ℕ → ℕ) → (ℕ → ℕ) → (ℕ → Bool) → ℕ → ℕ → Database → Bool × Database
sweep json net clock done cancelled zero k d = (false, d)
sweep json net clock done cancelled (suc fuel) k d = elim (cancelled k) [
  | true ↦ (true, d)
  | false ↦
      let due = due_deliveries (clock k) sweep_batch d in
      let d' = attempt_all json net (done k) due d in
      elim (ltb (length due) sweep_batch) [
        | true ↦ (true, d')
        | false ↦ sweep json net clock done cancelled fuel (suc k) d'
      ]
]

-- ===== src/Webhook/Attempt/Termination.antt =====
-- The sweep over due deliveries comes to an end.
use tokenzy.Prelude.{
  ℕ, zero, suc, ◌+◌, ◌≤◌, ◌<◌, ◌≡◌, ◌≢◌, refl, Bool, true, false, Option, none, some, List, [], ◌∷◌,
  arith, ltb, ◌==◌, is_some, Option-cases, Bool-cases, inl, inr, All, All-and, length,
}
use tokenzy.Prelude.Table.{select_row, count_where}
use tokenzy.Prelude.Table.Rewrite.{All-rewrite}
use tokenzy.Model.{Webhook, WebhookDelivery, pending}
use tokenzy.Db.{Database, WebhookRow, ok}
use tokenzy.Db.Webhooks.{
  HeaderJson, due_deliveries, get_webhook_by_id, scan_webhook, record_delivery_result,
}
use tokenzy.Webhook.Request.{Net, post}
use tokenzy.Webhook.Attempt.{retry_at, attempt, attempt_all, sweep, sweep_batch}
use tokenzy.Webhook.Attempt.Lifecycle.{deliveries-attempt}
use tokenzy.Webhook.Attempt.Rows.{
  total_due, HasDistinctIds, same_id, IsOnly, IsRow, rows-IsRow, IsOnly-settled,
  HasDistinctIds-settled, settled-total, settle-webhook_id,
}
use tokenzy.Webhook.Attempt.Batch.{
  due_deliveries-All, due_deliveries-pending, due_deliveries-HasDistinctIds,
}
use tokenzy.Prelude.Str.{Str}

-- The webhook of every delivery is there, as the foreign key says.
abbrev pub HasHook : Database → WebhookDelivery → Type 0
HasHook d x = is_some (select_row (λ (w : WebhookRow). w.id == x.webhook_id) d.webhooks) ≡ true

abbrev pub IsConsistent : Database → Type 0
IsConsistent d = HasDistinctIds d.deliveries × All (HasHook d) d.deliveries

webhooks_written :
    (ts n id : ℕ) (p : ℕ × Option Str) (d : Database)
    → (elim p.1 as (λ _. Database) [
      | none ↦ record_delivery_result ts id n p.0 [] none true d
      | some e ↦ record_delivery_result ts id n p.0 e (retry_at ts n) false d
    ]).webhooks
      ≡ d.webhooks
unfolding record_delivery_result
webhooks_written ts n id (status, none) d = refl
webhooks_written ts n id (status, some e) d = refl

pub webhooks-attempt :
    (net : Net) (ts : ℕ) (x : WebhookDelivery) (hook : Webhook) (d : Database)
    → (attempt net ts x hook d).webhooks ≡ d.webhooks
unfolding attempt
webhooks-attempt net ts x hook d =
    webhooks_written ts (x.attempt + 1) x.id (post net hook x (x.attempt + 1)) d

pub found :
    (json : HeaderJson) (x : WebhookDelivery) (d : Database)
    → HasHook d x
    → (hook : Webhook) × (get_webhook_by_id json x.webhook_id d ≡ ok hook)
unfolding get_webhook_by_id
found json x d h =
    elim (Option-cases (select_row (λ (w : WebhookRow). w.id == x.webhook_id) d.webhooks)) [
      | inl e ↦ absurd (ground arith)
      | inr (w, e) ↦ (scan_webhook json w, rw (e, get_webhook_by_id))
    ]

attempt-IsConsistent :
    (net : Net) (ts : ℕ) (x : WebhookDelivery) (hook : Webhook) (d : Database)
    → IsConsistent d
    → IsConsistent (attempt net ts x hook d)
attempt-IsConsistent net ts x hook d h = rw deliveries-attempt (
    rw webhooks-attempt (
      HasDistinctIds-settled ts (x.attempt + 1) _ x d.deliveries h.0,
      All-rewrite (HasHook d) (HasHook d) (same_id x) _ d.deliveries
          (λ r e k. rw (settle-webhook_id ts (x.attempt + 1) (post net hook x (x.attempt + 1)) r) k)
          (λ r e k. k) h.1,
    ))

-- What is known of a batch as it is worked off.
abbrev pub IsBatch : Database → List WebhookDelivery → Type 0
IsBatch d batch =
    All (λ x. (pending x ≡ true) × IsOnly d.deliveries x × HasHook d x) batch × HasDistinctIds batch

next-IsBatch :
    (net : Net) (ts : ℕ) (x : WebhookDelivery) (hook : Webhook) (batch : List WebhookDelivery)
    (d : Database)
    → IsBatch d (x ∷ batch)
    → IsBatch (attempt net ts x hook d) batch
next-IsBatch net ts x hook batch d (h, k) = (
  All-and (λ y. x.id ≢ y.id) (λ y. (pending y ≡ true) × IsOnly d.deliveries y × HasHook d y)
      (λ y.
        (pending y ≡ true)
        × IsOnly (attempt net ts x hook d).deliveries y
        × HasHook (attempt net ts x hook d) y)
      batch
      (λ y n (p, o, q). (
        p,
        rw deliveries-attempt (IsOnly-settled ts (x.attempt + 1) _ x y d.deliveries n o),
        rw webhooks-attempt q,
      ))
      k.0 h.1,
  k.1,
)

attempt-total :
    (net : Net) (ts : ℕ) (x : WebhookDelivery) (hook : Webhook) (d : Database)
    → pending x ≡ true
    → IsOnly d.deliveries x
    → total_due (attempt net ts x hook d).deliveries + count_where (same_id x) d.deliveries
      ≤ total_due d.deliveries
attempt-total net ts x hook d p o =
    rw deliveries-attempt (settled-total ts (post net hook x (x.attempt + 1)) x d.deliveries p o)

pub worked_off :
    (json : HeaderJson) (net : Net) (ts : ℕ) (batch : List WebhookDelivery) (d : Database)
    → IsConsistent d
    → IsBatch d batch
    → (total_due (attempt_all json net ts batch d).deliveries ≤ total_due d.deliveries)
      × IsConsistent (attempt_all json net ts batch d)
unfolding attempt_all
worked_off json net ts [] d c b = (omega arith, c)
worked_off json net ts (x ∷ batch) d c b =
    let (p, o, q) = b.0.0 in
    let (hook, e) = found json x d q in
    let rest =
      worked_off json net ts batch (attempt net ts x hook d)
        (attempt-IsConsistent net ts x hook d c) (next-IsBatch net ts x hook batch d b) in
    rw (e, attempt_all) (omega (arith, rest.0, attempt-total net ts x hook d p o), rest.1)

-- A batch that is not empty uses up at least one attempt.
pub progress :
    (json : HeaderJson) (net : Net) (ts : ℕ) (batch : List WebhookDelivery) (d : Database)
    → IsConsistent d
    → IsBatch d batch
    → All (IsRow d.deliveries) batch
    → 0 < length batch
    → total_due (attempt_all json net ts batch d).deliveries < total_due d.deliveries
unfolding attempt_all
progress json net ts [] d c b r h = absurd (omega arith)
progress json net ts (x ∷ batch) d c b r h =
    let (p, o, q) = b.0.0 in
    let (hook, e) = found json x d q in
    let rest =
      worked_off json net ts batch (attempt net ts x hook d)
        (attempt-IsConsistent net ts x hook d c) (next-IsBatch net ts x hook batch d b) in
    rw (e, attempt_all) (omega (arith, rest.0, attempt-total net ts x hook d p o, r.0.1))

pub due-IsRow :
    (at limit : ℕ) (d : Database)
    → IsConsistent d
    → All (IsRow d.deliveries) (due_deliveries at limit d)
due-IsRow at limit d c =
    due_deliveries-All at limit d (IsRow d.deliveries) (rows-IsRow d.deliveries c.0)

pub due-IsBatch :
    (at limit : ℕ) (d : Database) → IsConsistent d → IsBatch d (due_deliveries at limit d)
due-IsBatch at limit d c = (
  All-and (λ x. pending x ≡ true) (λ x. IsRow d.deliveries x × HasHook d x)
      (λ x. (pending x ≡ true) × IsOnly d.deliveries x × HasHook d x) _ (λ x p (r, h). (p, r.0, h))
      (due_deliveries-pending at limit d)
      (All-and (IsRow d.deliveries) (HasHook d) (λ x. IsRow d.deliveries x × HasHook d x) _
        (λ x r h. (r, h)) (due-IsRow at limit d c) (due_deliveries-All at limit d (HasHook d) c.1)),
  due_deliveries-HasDistinctIds at limit d c.0,
)

-- Where the deliveries have distinct ids and their webhooks exist, the sweep comes to its own end
-- within as many batches as there are attempts left on the pending deliveries, four for a new one,
-- and one more: whatever the receivers answer, whatever the clock says, wherever it is cancelled.
pub sweep-ends :
    (json : HeaderJson) (net : Net) (clock done : ℕ → ℕ) (cancelled : ℕ → Bool) (fuel k : ℕ)
    (d : Database)
    → IsConsistent d
    → total_due d.deliveries < fuel
    → (sweep json net clock done cancelled fuel k d).0 ≡ true
unfolding sweep
sweep-ends json net clock done cancelled zero k d c h = absurd (omega arith)
sweep-ends json net clock done cancelled (suc fuel) k d c h =
    let due = due_deliveries (clock k) sweep_batch d in
    let b = due-IsBatch (clock k) sweep_batch d c in
    elim (Bool-cases (cancelled k)) [
      | inl e ↦ rw (e, sweep) refl
      | inr e ↦ elim (Bool-cases (ltb (length due) sweep_batch)) [
        | inl s ↦ rw (e, sweep) (rw s refl)
        | inr s ↦
            rw (e, sweep)
              (rw s (
                sweep-ends json net clock done cancelled fuel (suc k)
                  (attempt_all json net (done k) due d) (worked_off json net (done k) due d c b).1
                  (omega (
                    arith,
                    progress json net (done k) due d c b (due-IsRow (clock k) sweep_batch d c)
                        (ground arith),
                  ))))
      ]
    ]

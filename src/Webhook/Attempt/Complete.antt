-- ===== src/Webhook/Attempt/Complete.antt =====
-- What a sweep leaves behind.
use tokenzy.Prelude.{
  ℕ, zero, suc, ◌+◌, ◌≤◌, ◌<◌, ◌≡◌, ◌⊎◌, refl, Bool, true, false, Option, none, some, List, [], ◌∷◌,
  arith, ltb, length, Bool-cases, inl, inr, All,
}
use tokenzy.Prelude.Str.{Str}
use tokenzy.Model.{WebhookDelivery}
use tokenzy.Db.{Database}
use tokenzy.Db.Webhooks.{HeaderJson, is_due, due_deliveries}
use tokenzy.Webhook.Request.{Net}
use tokenzy.Webhook.Attempt.{retry_at, attempt_all, sweep, sweep_batch}
use tokenzy.Webhook.Attempt.Lifecycle.{settle}
use tokenzy.Webhook.Attempt.Rows.{total_due}
use tokenzy.Webhook.Attempt.Listed.{short_batch-holds}
use tokenzy.Webhook.Attempt.Termination.{IsConsistent, worked_off, progress, due-IsBatch, due-IsRow}

settle-is_due :
    (at ts n : ℕ) (p : ℕ × Option Str) (r : WebhookDelivery)
    → at ≤ ts
    → is_due at (settle ts (n + 1) p r) ≡ false
unfolding is_due retry_at
settle-is_due at ts n (status, none) r h = refl
settle-is_due at ts n (status, some e) r h = ground arith

due_or_not :
    (at now : ℕ) (r : WebhookDelivery) → at ≤ now → (is_due at r ≡ false) ⊎ (is_due now r ≡ true)
unfolding is_due
due_or_not at now r h = elim (Bool-cases (is_due at r)) [
  | inl e ↦ inr (ground arith)
  | inr e ↦ inl e
]

every_row :
    (P : WebhookDelivery → Type 0) (rows : List WebhookDelivery)
    → ((r : WebhookDelivery) → P r)
    → All P rows
every_row P [] h = tt
every_row P (x ∷ rows) h = (h x, every_row P rows h)

-- A sweep that begins at a time and is not cancelled comes to its end, and then no delivery is left
-- that was due at that time, whatever the receivers answer: each was delivered, given up, or put off
-- to a later time. The deliveries have distinct ids and their webhooks exist, and the fuel is as in
-- `sweep-ends`.
pub sweep_complete :
    (json : HeaderJson) (net : Net) (clock done : ℕ → ℕ) (cancelled : ℕ → Bool) (at fuel k : ℕ)
    (d : Database)
    → ((i : ℕ) → (at ≤ clock i) × (at ≤ done i) × (cancelled i ≡ false))
    → IsConsistent d
    → total_due d.deliveries < fuel
    → let (ended, d') = sweep json net clock done cancelled fuel k d in
      (ended ≡ true) × All (λ r. is_due at r ≡ false) d'.deliveries
unfolding sweep
sweep_complete json net clock done cancelled at zero k d t c h = absurd (omega arith)
sweep_complete json net clock done cancelled at (suc fuel) k d t c h =
    let due = due_deliveries (clock k) sweep_batch d in
    let b = due-IsBatch (clock k) sweep_batch d c in
    let (early, late, e) = t k in
    elim (Bool-cases (ltb (length due) sweep_batch)) [
      | inl s ↦
          rw (e, sweep)
            (rw s (
              refl,
              short_batch-holds (λ r. is_due at r ≡ false) json net (done k) (clock k) sweep_batch d
                  (λ n p r. settle-is_due at (done k) n p r late) c.1
                  (every_row _ d.deliveries (λ r. due_or_not at (clock k) r early)) (ground arith),
            ))
      | inr s ↦
          rw (e, sweep)
            (rw s (
              sweep_complete json net clock done cancelled at fuel (suc k)
                (attempt_all json net (done k) due d) t (worked_off json net (done k) due d c b).1
                (omega (
                  arith,
                  progress json net (done k) due d c b (due-IsRow (clock k) sweep_batch d c)
                      (ground arith),
                ))))
    ]

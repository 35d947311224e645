-- ===== src/Webhook/Attempt/Lifecycle.antt =====
-- The life of one delivery: at most four attempts, 30 seconds, 2 and 10 minutes apart.
use tokenzy.Prelude.{
  ℕ, ◌+◌, ◌≤◌, ◌≡◌, refl, true, false, Option, none, some, [], arith, is_none, if◌then◌else◌, ◌==◌,
  ==_iff, All, All-and, ap,
}
use tokenzy.Prelude.Str.{Str}
use tokenzy.Prelude.Table.{update_where}
use tokenzy.Prelude.Table.Rewrite.{All-rewrite}
use tokenzy.Model.{Webhook, WebhookDelivery, pending, delivered, gave_up}
use tokenzy.Db.{Database}
use tokenzy.Db.Webhooks.{set_result, record_delivery_result}
use tokenzy.Webhook.Request.{Net, post}
use tokenzy.Webhook.Attempt.{retry_at, attempt}

-- The row of a delivery after its n-th attempt, by the status and the error of that.
abbrev pub settle : ℕ → ℕ → ℕ × Option Str → WebhookDelivery → WebhookDelivery
settle ts n (status, none) r = set_result ts n status [] none true r
settle ts n (status, some e) r = set_result ts n status e (retry_at ts n) false r

written :
    (ts n id : ℕ) (p : ℕ × Option Str) (d : Database)
    → (elim p.1 as (λ _. Database) [
      | none ↦ record_delivery_result ts id n p.0 [] none true d
      | some e ↦ record_delivery_result ts id n p.0 e (retry_at ts n) false d
    ]).deliveries
      ≡ update_where (λ (r : WebhookDelivery). r.id == id) (settle ts n p) d.deliveries
unfolding record_delivery_result
written ts n id (status, none) d = refl
written ts n id (status, some e) d = refl

-- What an attempt writes: the row with the delivery's id gets the outcome of it.
pub deliveries-attempt :
    (net : Net) (ts : ℕ) (hook : Webhook) (x : WebhookDelivery) (d : Database)
    → (attempt net ts x hook d).deliveries
      ≡ update_where
          (λ (r : WebhookDelivery). r.id == x.id)
          (settle ts (x.attempt + 1) (post net hook x (x.attempt + 1)))
          d.deliveries
unfolding attempt
deliveries-attempt net ts hook x d =
    written ts (x.attempt + 1) x.id (post net hook x (x.attempt + 1)) d

-- Where a delivery stands. Pending, it has had at most three attempts; given up, exactly four; and
-- a delivered one has no next attempt.
abbrev pub IsSound : WebhookDelivery → Type 0
IsSound x =
    (pending x ≡ true → x.attempt ≤ 3)
    × (gave_up x ≡ true → x.attempt ≡ 4)
    × (delivered x ≡ true → (x.next_retry_at ≡ none) × (x.attempt ≤ 4))

settle-IsSound :
    (ts : ℕ) (p : ℕ × Option Str) (x : WebhookDelivery)
    → x.attempt ≤ 3
    → IsSound (settle ts (x.attempt + 1) p x)
unfolding retry_at pending gave_up delivered
settle-IsSound ts (status, none) x h = ground arith
settle-IsSound ts (status, some e) x h = ground arith

-- The seconds until the next attempt, by the number of those made.
abbrev pub delay_after : ℕ → Option ℕ
delay_after n =
    if n == 1 then some 30 else if n == 2 then some 120 else if n == 3 then some 600 else none

-- What becomes of a pending row.
abbrev pub Follows : ℕ → Option Str → WebhookDelivery → WebhookDelivery → Type 0
Follows ts error x y =
    (y.attempt ≡ x.attempt + 1)
    × (delivered y ≡ is_none error)
    × (y.next_retry_at ≡ elim error [
      | none ↦ none
      | some _ ↦ elim (delay_after y.attempt) [ none ↦ none | some delay ↦ some (ts + delay) ]
    ])

settle-Follows :
    (ts : ℕ) (p : ℕ × Option Str) (x : WebhookDelivery)
    → x.attempt ≤ 3
    → Follows ts p.1 x (settle ts (x.attempt + 1) p x)
unfolding retry_at delivered
settle-Follows ts (status, none) x h = (refl, refl, refl)
settle-Follows ts (status, some e) x h = (refl, refl, ground arith)

-- The row of a delivery after one more attempt.
abbrev pub attempted : Net → ℕ → Webhook → WebhookDelivery → WebhookDelivery
attempted net ts hook x = settle ts (x.attempt + 1) (post net hook x (x.attempt + 1)) x

-- An attempt at a pending delivery leaves every row sound that was sound: a delivery is attempted at
-- most four times, gives up only after the fourth attempt, and has no next attempt once delivered.
-- The delivery's own row counts one more attempt, is delivered exactly when `post` reports no error,
-- and is otherwise due again 30 seconds after the first attempt, two minutes after the second, ten
-- after the third, and never after the fourth.
pub attempt-IsSound :
    (net : Net) (ts : ℕ) (hook : Webhook) (x : WebhookDelivery) (d : Database)
    → pending x ≡ true
    → IsSound x
    → All (λ r. r.id ≡ x.id → r ≡ x) d.deliveries
    → All IsSound d.deliveries
    → All IsSound (attempt net ts x hook d).deliveries
      × All (λ r. r.id ≡ x.id → r ≡ attempted net ts hook x) (attempt net ts x hook d).deliveries
      × Follows ts (post net hook x (x.attempt + 1)).1 x (attempted net ts hook x)
attempt-IsSound net ts hook x d p s u l =
    let bound : x.attempt ≤ 3 = s.0 p in
    let result = post net hook x (x.attempt + 1) in
    let rows =
      All-and IsSound (λ r. r.id ≡ x.id → r ≡ x) (λ r. IsSound r × (r.id ≡ x.id → r ≡ x))
        d.deliveries (λ r a b. (a, b)) l u in
    rw deliveries-attempt (
      All-rewrite (λ r. IsSound r × (r.id ≡ x.id → r ≡ x)) IsSound (λ r. r.id == x.id) _
          d.deliveries
          (λ r e h. rw (h.1 ((==_iff r.id x.id).0 e)) (settle-IsSound ts result x bound))
          (λ r e h. h.0) rows,
      All-rewrite (λ r. IsSound r × (r.id ≡ x.id → r ≡ x))
          (λ r. r.id ≡ x.id → r ≡ attempted net ts hook x) (λ r. r.id == x.id) _ d.deliveries
          (λ r e h _. ap (settle ts (x.attempt + 1) result) (h.1 ((==_iff r.id x.id).0 e)))
          (λ r e h k. absurd (ground arith)) rows,
      settle-Follows ts result x bound,
    )

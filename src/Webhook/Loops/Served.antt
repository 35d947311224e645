-- ===== src/Webhook/Loops/Served.antt =====
-- What the sender has done of the rows, and what each turn of a sweep does to it.
use tokenzy.Prelude.{
  ℕ, ◌≤◌, ◌≡◌, ◌⊎◌, sym, ap, ◌∙◌, Bool, true, false, List, [], ◌∷◌, ◌++◌, arith, ltb, length, inl,
  inr, All, All-map, All-and, ◌+◌, ◌&&◌, ◌==◌, Bool-cases,
}
use tokenzy.Prelude.Table.{select, count_where}
use tokenzy.Prelude.Table.Rewrite.{All-rewrite}
use tokenzy.Db.Listing.Select.{select-All}
use tokenzy.Model.{Webhook, WebhookDelivery}
use tokenzy.Db.{Database, TokenEvent, ok, err, not_found}
use tokenzy.Db.Webhooks.{HeaderJson, is_due, due_deliveries, get_webhook_by_id}
use tokenzy.Webhook.Request.{Net, post}
use tokenzy.Webhook.Record.{Dispatcher, notify}
use tokenzy.Webhook.Attempt.{attempt, sweep_batch}
use tokenzy.Webhook.Attempt.Lifecycle.{deliveries-attempt}
use tokenzy.Webhook.Attempt.Rows.{same_id, settle-webhook_id}
use tokenzy.Webhook.Attempt.Termination.{HasHook, found, webhooks-attempt}
use tokenzy.Webhook.Attempt.Listed.{IsListedBy, due-IsListedBy, settle-attempt}
use tokenzy.Webhook.Loops.{
  Sender, sweeping, sending, waiting, stopped, System, has_written, read_batch, next_batch,
}
use tokenzy.Webhook.Loops.Written.{IsTried, IsReady, IsWell}

-- A rowid may be given again, to a delivery of another webhook.
abbrev same_row : WebhookDelivery → WebhookDelivery → Bool
same_row r x = r.id == x.id && r.webhook_id == x.webhook_id

same_row_refl : (r : WebhookDelivery) → same_row r r ≡ true
same_row_refl r = ground arith

abbrev IsInHand : List WebhookDelivery → WebhookDelivery → Type 0
IsInHand batch r = IsTried r ⊎ IsListedBy same_row batch r

-- What the sender has done of the rows, or has before it.
abbrev pub Served : Sender → List WebhookDelivery → Type 0
Served waiting rows = All IsTried rows
Served (sending batch true) rows = All (IsInHand batch) rows
Served (sending batch false) rows = Unit
Served sweeping rows = Unit
Served stopped rows = Unit

-- No row was written since the sender last woke, but for those it was nudged for.
abbrev IsCalm : System → Type 0
IsCalm s =
    (s.channels.wake ≡ false)
    × (has_written s.recorder ≡ false)
    × (s.tests ≡ 0)
    × (s.abandoned ≡ false)

abbrev pub IsFed : System → Type 0
IsFed s =
    IsWell s.now s.database
    × (s.cancelled ≡ false → IsCalm s → Served s.sender s.database.deliveries)

pub IsReady-later : (now at : ℕ) (r : WebhookDelivery) → now ≤ at → IsReady now r → IsReady at r
unfolding is_due
IsReady-later now at r h (inl t) = inl t
IsReady-later now at r h (inr e) = inr (ground arith)

pub wake-notify : (ev : TokenEvent) (s : Dispatcher) → (notify ev s).wake ≡ s.wake
unfolding notify
wake-notify ev s = ground arith

pub Served-select :
    (sender : Sender) (p : WebhookDelivery → Bool) (rows : List WebhookDelivery)
    → Served sender rows
    → Served sender (select p rows)
Served-select waiting p rows h = select-All IsTried p rows h
Served-select (sending batch true) p rows h = select-All (IsInHand batch) p rows h
Served-select (sending batch false) p rows h = tt
Served-select sweeping p rows h = tt
Served-select stopped p rows h = tt

count_where-middle :
    (p : WebhookDelivery → Bool) (before : List WebhookDelivery) (x : WebhookDelivery)
    (after : List WebhookDelivery)
    → count_where p (before ++ x ∷ after) ≡ count_where p (x ∷ []) + count_where p (before ++ after)
unfolding count_where
count_where-middle p [] x after = omega arith
count_where-middle p (y ∷ before) x after = omega (arith, count_where-middle p before x after)

not_first :
    (before : List WebhookDelivery) (x : WebhookDelivery) (after : List WebhookDelivery)
    (r : WebhookDelivery)
    → same_row r x ≡ false
    → IsInHand (before ++ x ∷ after) r
    → IsInHand (before ++ after) r
unfolding count_where
not_first before x after r e (inl t) = inl t
not_first before x after r e (inr h) =
    inr (ground (arith, count_where-middle (same_row r) before x after))

pub attempt-IsWell :
    (net : Net) (ts now : ℕ) (x : WebhookDelivery) (hook : Webhook) (d : Database)
    → IsWell now d
    → IsWell now (attempt net ts x hook d)
attempt-IsWell net ts now x hook d (ready, hooks) =
    let result = post net hook x (x.attempt + 1) in
    rw deliveries-attempt (
      All-rewrite (IsReady now) (IsReady now) (same_id x) _ d.deliveries
          (λ r e k. inl (omega (arith, settle-attempt ts (x.attempt + 1) result r))) (λ r e k. k)
          ready,
      rw webhooks-attempt (
          All-rewrite (HasHook d) (HasHook d) (same_id x) _ d.deliveries
            (λ r e k. rw (settle-webhook_id ts (x.attempt + 1) result r) k) (λ r e k. k) hooks),
    )

pub attempt-Served :
    (before after : List WebhookDelivery) (x : WebhookDelivery) (short : Bool) (net : Net) (ts : ℕ)
    (hook : Webhook) (d : Database)
    → Served (sending (before ++ x ∷ after) short) d.deliveries
    → Served (sending (before ++ after) short) (attempt net ts x hook d).deliveries
attempt-Served before after x false net ts hook d h = tt
attempt-Served before after x true net ts hook d h = rw deliveries-attempt (
    All-rewrite (IsInHand (before ++ x ∷ after)) (IsInHand (before ++ after)) (same_id x) _
      d.deliveries
      (λ r e k.
        inl (omega (arith, settle-attempt ts (x.attempt + 1) (post net hook x (x.attempt + 1)) r)))
      (λ r e k. not_first before x after r (ground arith) k) h)

-- A delivery whose webhook is gone is gone, too.
pub passed_over-Served :
    (json : HeaderJson) (before after : List WebhookDelivery) (x : WebhookDelivery) (short : Bool)
    (d : Database)
    → get_webhook_by_id json x.webhook_id d ≡ err not_found
    → All (HasHook d) d.deliveries
    → Served (sending (before ++ x ∷ after) short) d.deliveries
    → Served (sending (before ++ after) short) d.deliveries
passed_over-Served json before after x false d e k h = tt
passed_over-Served json before after x true d e k h =
    All-and (HasHook d) (IsInHand (before ++ x ∷ after)) (IsInHand (before ++ after)) d.deliveries
      (λ r has i. elim (Bool-cases (same_row r x)) [
        | inl same ↦
            let at : r.webhook_id ≡ x.webhook_id = ground arith in
            let (hook, f) = found json r d has in
            absurd (is_err (sym (ap (λ id. get_webhook_by_id json id d) at ∙ e) ∙ f))
        | inr other ↦ not_first before x after r other i
      ])
      k h
  where
    is_err : {hook : Webhook} → ¬ (err not_found ≡ ok hook)
    is_err e = cc

pub read_batch-Served :
    (s : System) → IsWell s.now s.database → Served (read_batch s) s.database.deliveries
unfolding read_batch
read_batch-Served s (ready, hooks) =
    let due = due_deliveries s.now sweep_batch s.database in
    elim (Bool-cases (ltb (length due) sweep_batch)) [
      | inl e ↦ rw e (
          All-and (IsReady s.now) (λ r. is_due s.now r ≡ true → IsListedBy same_row due r)
            (IsInHand due) s.database.deliveries
            (λ r a b. elim a [ inl t ↦ inl t | inr k ↦ inr (b k) ]) ready
            (due-IsListedBy same_row same_row_refl s.now sweep_batch s.database (ground arith)))
      | inr e ↦ rw e tt
    ]

pub next_batch-Served :
    (short : Bool) (rows : List WebhookDelivery)
    → Served (sending [] short) rows
    → Served (next_batch short) rows
unfolding next_batch count_where
next_batch-Served false rows h = tt
next_batch-Served true rows h =
    All-map (IsInHand []) IsTried rows
      (λ r k. elim k [ inl t ↦ t | inr e ↦ absurd (omega (arith, e)) ]) h

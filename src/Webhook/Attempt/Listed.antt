-- ===== src/Webhook/Attempt/Listed.antt =====
-- A batch that comes back short holds every delivery that is due, and an attempt is made at each.
use tokenzy.Prelude.{
  ℕ, zero, suc, ◌+◌, ◌≤◌, ◌<◌, ◌≡◌, ◌⊎◌, refl, Bool, true, List, [], ◌∷◌, arith, inl, inr, All,
  All-map, All-and, take, length, Option, none, some,
}
use tokenzy.Prelude.Str.{Str}
use tokenzy.Prelude.Table.{select, count_where, sort_by}
use tokenzy.Prelude.Table.Counts.{count-sort_by}
use tokenzy.Prelude.Table.Rewrite.{All-rewrite}
use tokenzy.Model.{Webhook, WebhookDelivery}
use tokenzy.Db.{Database}
use tokenzy.Db.Webhooks.{HeaderJson, is_due, due_first, due_deliveries}
use tokenzy.Webhook.Request.{Net, post}
use tokenzy.Webhook.Attempt.{attempt, attempt_all}
use tokenzy.Webhook.Attempt.Lifecycle.{deliveries-attempt, settle}
use tokenzy.Webhook.Attempt.Batch.{due_deliveries-All}
use tokenzy.Webhook.Attempt.Rows.{same_id}
use tokenzy.Webhook.Attempt.Termination.{HasHook, found, webhooks-attempt}

module _ {ℓ} {A : Type ℓ} where
  take_short : (n : ℕ) (xs : List A) → length (take n xs) < n → take n xs ≡ xs
  take_short zero xs h = absurd (omega arith)
  take_short (suc n) [] h = refl
  take_short (suc n) (x ∷ xs) h = rw (take_short n xs (omega arith)) refl

-- A delivery of the batch is related to the row.
abbrev pub IsListedBy :
    (WebhookDelivery → WebhookDelivery → Bool) → List WebhookDelivery → WebhookDelivery → Type 0
IsListedBy same batch r = 1 ≤ count_where (same r) batch

-- The row is among the deliveries of the batch.
abbrev pub IsListed : List WebhookDelivery → WebhookDelivery → Type 0
IsListed = IsListedBy same_id

module _ (same : WebhookDelivery → WebhookDelivery → Bool)
    (reflexive : (r : WebhookDelivery) → same r r ≡ true) where
  selected-IsListedBy :
      (at : ℕ) (rows : List WebhookDelivery)
      → All (λ r. is_due at r ≡ true → IsListedBy same (select (is_due at) rows) r) rows
  unfolding select count_where
  selected-IsListedBy at [] = tt
  selected-IsListedBy at (x ∷ rows) = (
    (λ e. rw e (rw (reflexive x) (omega arith))),
    All-map (λ r. is_due at r ≡ true → IsListedBy same (select (is_due at) rows) r)
        (λ r. is_due at r ≡ true → IsListedBy same (select (is_due at) (x ∷ rows)) r) rows
        (λ r h e. ground (arith, h e)) (selected-IsListedBy at rows),
  )

  -- A batch of fewer than the limit leaves out none that is due.
  pub due-IsListedBy :
      (at limit : ℕ) (d : Database)
      → length (due_deliveries at limit d) < limit
      → All (λ r. is_due at r ≡ true → IsListedBy same (due_deliveries at limit d) r) d.deliveries
  unfolding due_deliveries
  due-IsListedBy at limit d h =
      let due = select (is_due at) d.deliveries in
      All-map (λ r. is_due at r ≡ true → IsListedBy same due r)
        (λ r. is_due at r ≡ true → IsListedBy same (take limit (sort_by due_first due)) r)
        d.deliveries
        (λ r k e.
          rw (take_short limit (sort_by due_first due) h)
            (omega (arith, k e, count-sort_by (same r) due_first due)))
        (selected-IsListedBy at d.deliveries)

same_id_refl : (r : WebhookDelivery) → same_id r r ≡ true
same_id_refl r = ground arith

pub settle-attempt :
    (ts n : ℕ) (p : ℕ × Option Str) (r : WebhookDelivery) → (settle ts n p r).attempt ≡ n
settle-attempt ts n (status, none) r = refl
settle-attempt ts n (status, some e) r = refl

-- What an attempt at the time ts makes true of a row.
abbrev pub HoldsOnceSettled : ℕ → (WebhookDelivery → Type 0) → Type 0
HoldsOnceSettled ts G =
    (n : ℕ) (p : ℕ × Option Str) (r : WebhookDelivery) → G (settle ts (n + 1) p r)

module _ (G : WebhookDelivery → Type 0) where
  -- It holds of the row, or an attempt at the row is to come.
  abbrev pub IsServed : List WebhookDelivery → WebhookDelivery → Type 0
  IsServed batch r = G r ⊎ IsListed batch r

  attempt-IsServed :
      (net : Net) (ts : ℕ) (x : WebhookDelivery) (hook : Webhook) (batch : List WebhookDelivery)
      (d : Database)
      → HoldsOnceSettled ts G
      → All (IsServed (x ∷ batch)) d.deliveries
      → All (IsServed batch) (attempt net ts x hook d).deliveries
  unfolding count_where
  attempt-IsServed net ts x hook batch d g h = rw deliveries-attempt (
      All-rewrite (IsServed (x ∷ batch)) (IsServed batch) (same_id x) _ d.deliveries
        (λ r e k. inl (g x.attempt (post net hook x (x.attempt + 1)) r)) (λ r e k. ground arith) h)

  -- After the attempts at a batch it holds of every row that was in the batch, and of those of which
  -- it held before.
  attempt_all-holds :
      (json : HeaderJson) (net : Net) (ts : ℕ) (batch : List WebhookDelivery) (d : Database)
      → HoldsOnceSettled ts G
      → All (HasHook d) batch
      → All (IsServed batch) d.deliveries
      → All G (attempt_all json net ts batch d).deliveries
  unfolding attempt_all count_where
  attempt_all-holds json net ts [] d g k h =
      All-map (IsServed []) G d.deliveries
        (λ r s. elim s [ inl a ↦ a | inr e ↦ absurd (omega (arith, e)) ]) h
  attempt_all-holds json net ts (x ∷ batch) d g k h =
      let (hook, e) = found json x d k.0 in
      rw (e, attempt_all)
        (attempt_all-holds json net ts batch (attempt net ts x hook d) g (rw webhooks-attempt k.1)
          (attempt-IsServed net ts x hook batch d g h))

  -- A batch of fewer than the limit reaches every row that was due.
  pub short_batch-holds :
      (json : HeaderJson) (net : Net) (ts at limit : ℕ) (d : Database)
      → HoldsOnceSettled ts G
      → All (HasHook d) d.deliveries
      → All (λ r. G r ⊎ (is_due at r ≡ true)) d.deliveries
      → length (due_deliveries at limit d) < limit
      → All G (attempt_all json net ts (due_deliveries at limit d) d).deliveries
  short_batch-holds json net ts at limit d g hooks h short =
      let due = due_deliveries at limit d in
      attempt_all-holds json net ts due d g (due_deliveries-All at limit d (HasHook d) hooks) (
        All-and (λ r. G r ⊎ (is_due at r ≡ true)) (λ r. is_due at r ≡ true → IsListed due r)
          (IsServed due) d.deliveries (λ r a b. elim a [ inl t ↦ inl t | inr k ↦ inr (b k) ]) h
          (due-IsListedBy same_id same_id_refl at limit d short))

-- ===== src/Webhook/Attempt/Batch.antt =====
-- What a batch is made of: distinct pending rows of the table.
use tokenzy.Prelude.{
  ℕ, zero, suc, ◌≡◌, ◌≢◌, sym, Bool, true, List, [], ◌∷◌, arith, Bool-cases, inl, inr, All,
  All-take, take,
}
use tokenzy.Prelude.Table.{select, sort_by, insert_by}
use tokenzy.Db.Listing.Select.{select-All}
use tokenzy.Model.{WebhookDelivery, pending}
use tokenzy.Db.{Database}
use tokenzy.Db.Webhooks.{is_due, due_first, due_deliveries}
use tokenzy.Webhook.Attempt.Rows.{HasDistinctIds}

insert_by-All {κ} :
    (P : WebhookDelivery → Type κ) (x : WebhookDelivery) (rows : List WebhookDelivery)
    → P x
    → All P rows
    → All P (insert_by due_first x rows)
unfolding insert_by
insert_by-All P x [] h l = (h, tt)
insert_by-All P x (y ∷ rows) h l = elim (Bool-cases (due_first y x)) [
  | inl e ↦ rw e (l.0, insert_by-All P x rows h l.1)
  | inr e ↦ rw e (h, l)
]

sort_by-All {κ} :
    (P : WebhookDelivery → Type κ) (rows : List WebhookDelivery)
    → All P rows
    → All P (sort_by due_first rows)
unfolding sort_by
sort_by-All P [] h = tt
sort_by-All P (x ∷ rows) h = insert_by-All P x (sort_by due_first rows) h.0 (sort_by-All P rows h.1)

insert_by-HasDistinctIds :
    (x : WebhookDelivery) (rows : List WebhookDelivery)
    → All (λ r. x.id ≢ r.id) rows
    → HasDistinctIds rows
    → HasDistinctIds (insert_by due_first x rows)
unfolding insert_by
insert_by-HasDistinctIds x [] h l = (tt, tt)
insert_by-HasDistinctIds x (y ∷ rows) h l = elim (Bool-cases (due_first y x)) [
  | inl e ↦ rw e (
    insert_by-All (λ r. y.id ≢ r.id) x rows (λ q. h.0 (sym q)) l.0,
    insert_by-HasDistinctIds x rows h.1 l.1,
  )
  | inr e ↦ rw e (h, l)
]

sort_by-HasDistinctIds :
    (rows : List WebhookDelivery) → HasDistinctIds rows → HasDistinctIds (sort_by due_first rows)
unfolding sort_by
sort_by-HasDistinctIds [] h = tt
sort_by-HasDistinctIds (x ∷ rows) h =
    insert_by-HasDistinctIds x (sort_by due_first rows) (sort_by-All (λ r. x.id ≢ r.id) rows h.0)
      (sort_by-HasDistinctIds rows h.1)

select-HasDistinctIds :
    (p : WebhookDelivery → Bool) (rows : List WebhookDelivery)
    → HasDistinctIds rows
    → HasDistinctIds (select p rows)
unfolding select
select-HasDistinctIds p [] h = tt
select-HasDistinctIds p (x ∷ rows) h = elim (Bool-cases (p x)) [
  | inl e ↦ rw e (select-All (λ r. x.id ≢ r.id) p rows h.0, select-HasDistinctIds p rows h.1)
  | inr e ↦ rw e (select-HasDistinctIds p rows h.1)
]

take-HasDistinctIds :
    (n : ℕ) (rows : List WebhookDelivery) → HasDistinctIds rows → HasDistinctIds (take n rows)
take-HasDistinctIds zero rows h = tt
take-HasDistinctIds (suc n) [] h = tt
take-HasDistinctIds (suc n) (x ∷ rows) h =
    (All-take (λ r. x.id ≢ r.id) n rows h.0, take-HasDistinctIds n rows h.1)

selected-pending :
    (at : ℕ) (rows : List WebhookDelivery) → All (λ x. pending x ≡ true) (select (is_due at) rows)
unfolding select
selected-pending at [] = tt
selected-pending at (x ∷ rows) = elim (Bool-cases (is_due at x)) [
  | inl e ↦ rw e (unfold is_due pending in ground arith, selected-pending at rows)
  | inr e ↦ rw e (selected-pending at rows)
]

-- The deliveries that `DueDeliveries` returns.
module _ (at limit : ℕ) (d : Database) where
  pub due_deliveries-All {κ} :
      (P : WebhookDelivery → Type κ) → All P d.deliveries → All P (due_deliveries at limit d)
  unfolding due_deliveries
  due_deliveries-All P h =
      All-take P limit _ (sort_by-All P _ (select-All P (is_due at) d.deliveries h))

  pub due_deliveries-pending : All (λ x. pending x ≡ true) (due_deliveries at limit d)
  unfolding due_deliveries
  due_deliveries-pending =
      All-take (λ x. pending x ≡ true) limit _
        (sort_by-All (λ x. pending x ≡ true) _ (selected-pending at d.deliveries))

  pub due_deliveries-HasDistinctIds :
      HasDistinctIds d.deliveries → HasDistinctIds (due_deliveries at limit d)
  unfolding due_deliveries
  due_deliveries-HasDistinctIds h =
      take-HasDistinctIds limit _
        (sort_by-HasDistinctIds _ (select-HasDistinctIds (is_due at) d.deliveries h))

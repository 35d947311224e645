-- ===== src/Webhook/Attempt/Rows.antt =====
-- What attempts leave of the rows, and how many more of them a row may see.
use tokenzy.Prelude.{
  ℕ, suc, ◌+◌, ◌-◌, ◌≤◌, ◌≡◌, ◌≢◌, refl, sym, ◌∙◌, Bool, true, Option, none, some, List, [], ◌∷◌,
  arith, ◌==◌, ==_iff, if◌then◌else◌, Bool-cases, inl, inr, All, All-and, All-map,
}
use tokenzy.Prelude.Str.{Str}
use tokenzy.Prelude.Table.{update_where, count_where}
use tokenzy.Prelude.Table.Rewrite.{All-rewrite}
use tokenzy.Model.{WebhookDelivery, pending}
use tokenzy.Webhook.Attempt.{retry_at}
use tokenzy.Webhook.Attempt.Lifecycle.{settle}

-- The attempts that a row may still see.
abbrev pub attempts_due : WebhookDelivery → ℕ
attempts_due x = if pending x then suc (3 - x.attempt) else 0

abbrev pub total_due : List WebhookDelivery → ℕ
total_due [] = 0
total_due (x ∷ rows) = attempts_due x + total_due rows

abbrev pub HasDistinctIds : List WebhookDelivery → Type 0
HasDistinctIds [] = Unit
HasDistinctIds (x ∷ rows) = All (λ r. x.id ≢ r.id) rows × HasDistinctIds rows

abbrev pub same_id : WebhookDelivery → WebhookDelivery → Bool
same_id x r = r.id == x.id

-- The delivery is the row of its id.
abbrev pub IsOnly : List WebhookDelivery → WebhookDelivery → Type 0
IsOnly rows x = All (λ r. r.id ≡ x.id → r ≡ x) rows

abbrev pub IsRow : List WebhookDelivery → WebhookDelivery → Type 0
IsRow rows x = IsOnly rows x × (1 ≤ count_where (same_id x) rows)

IsRow-behind :
    (a x : WebhookDelivery) (rows : List WebhookDelivery)
    → a.id ≢ x.id
    → IsRow rows x
    → IsRow (a ∷ rows) x
unfolding count_where
IsRow-behind a x rows h k = (((λ e. absurd (h e)), k.0), ground arith)

pub rows-IsRow : (rows : List WebhookDelivery) → HasDistinctIds rows → All (IsRow rows) rows
unfolding count_where
rows-IsRow [] h = tt
rows-IsRow (a ∷ rows) h = (
  (
    (
      (λ _. refl),
      All-map (λ r. a.id ≢ r.id) (λ r. r.id ≡ a.id → r ≡ a) rows (λ r n e. absurd (n (sym e))) h.0,
    ),
    ground arith,
  ),
  All-and (λ r. a.id ≢ r.id) (IsRow rows) (IsRow (a ∷ rows)) rows (λ x. IsRow-behind a x rows) h.0
      (rows-IsRow rows h.1),
)

settle-id : (ts n : ℕ) (p : ℕ × Option Str) (r : WebhookDelivery) → (settle ts n p r).id ≡ r.id
settle-id ts n (status, none) r = refl
settle-id ts n (status, some e) r = refl

pub settle-webhook_id :
    (ts n : ℕ) (p : ℕ × Option Str) (r : WebhookDelivery)
    → (settle ts n p r).webhook_id ≡ r.webhook_id
settle-webhook_id ts n (status, none) r = refl
settle-webhook_id ts n (status, some e) r = refl

settle-attempts_due :
    (ts : ℕ) (p : ℕ × Option Str) (x : WebhookDelivery)
    → pending x ≡ true
    → attempts_due (settle ts (x.attempt + 1) p x) + 1 ≤ attempts_due x
unfolding pending retry_at
settle-attempts_due ts (status, none) x h = ground arith
settle-attempts_due ts (status, some e) x h = ground arith

pub settled-total :
    (ts : ℕ) (p : ℕ × Option Str) (x : WebhookDelivery) (rows : List WebhookDelivery)
    → pending x ≡ true
    → IsOnly rows x
    → total_due (update_where (same_id x) (settle ts (x.attempt + 1) p) rows)
        + count_where (same_id x) rows
      ≤ total_due rows
unfolding update_where count_where
settled-total ts p x [] h o = omega arith
settled-total ts p x (r ∷ rows) h o = elim (Bool-cases (r.id == x.id)) [
  | inl e ↦
      let eq : r ≡ x = o.0 ((==_iff r.id x.id).0 e) in
      let step : attempts_due (settle ts (x.attempt + 1) p r) + 1 ≤ attempts_due r =
        rw eq (settle-attempts_due ts p x h) in
      rw e (omega (arith, step, settled-total ts p x rows h o.1))
  | inr e ↦ rw e (omega (arith, settled-total ts p x rows h o.1))
]

-- An attempt leaves the rows of other deliveries as they are.
pub IsOnly-settled :
    (ts n : ℕ) (p : ℕ × Option Str) (x y : WebhookDelivery) (rows : List WebhookDelivery)
    → x.id ≢ y.id
    → IsOnly rows y
    → IsOnly (update_where (same_id x) (settle ts n p) rows) y
IsOnly-settled ts n p x y rows h o =
    All-rewrite (λ r. r.id ≡ y.id → r ≡ y) (λ r. r.id ≡ y.id → r ≡ y) (same_id x) (settle ts n p)
      rows (λ r e k q. absurd (h (sym ((==_iff r.id x.id).0 e) ∙ sym (settle-id ts n p r) ∙ q)))
      (λ r e k. k) o

pub HasDistinctIds-settled :
    (ts n : ℕ) (p : ℕ × Option Str) (x : WebhookDelivery) (rows : List WebhookDelivery)
    → HasDistinctIds rows
    → HasDistinctIds (update_where (same_id x) (settle ts n p) rows)
unfolding update_where
HasDistinctIds-settled ts n p x [] h = tt
HasDistinctIds-settled ts n p x (r ∷ rows) h =
    let rest =
      All-rewrite (λ s. r.id ≢ s.id) (λ s. r.id ≢ s.id) (same_id x) (settle ts n p) rows
        (λ s e k. rw (settle-id ts n p s) k) (λ s e k. k) h.0 in
    elim (Bool-cases (r.id == x.id)) [
      | inl e ↦ rw e (rw (settle-id ts n p r) rest, HasDistinctIds-settled ts n p x rows h.1)
      | inr e ↦ rw e (rest, HasDistinctIds-settled ts n p x rows h.1)
    ]

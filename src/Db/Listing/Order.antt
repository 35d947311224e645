-- ===== src/Db/Listing/Order.antt =====
-- ORDER BY yields a strictly ordered list, and selecting rows commutes with it.
use tokenzy.Prelude.{
  ◌≡◌, ◌≢◌, true, false, List, [], ◌∷◌, arith, All, All-map, Bool-cases, inl, inr,
}
use tokenzy.Prelude.Str.{str_lt_irrefl, str_lt_trans, str_lt-total}
use tokenzy.Db.Listing.{Position, newer, insert_row, order_rows}

pub newer_trans : (a b c : Position) → newer a b ≡ true → newer b c ≡ true → newer a c ≡ true
unfolding newer
newer_trans a b c h k = ground (arith, str_lt_trans c.id b.id a.id)

pub newer_irrefl : (a : Position) → newer a a ≡ false
unfolding newer
newer_irrefl a = ground (arith, str_lt_irrefl a.id)

-- Of two rows with different ids one comes first.
pub newer-total : (a b : Position) → a.id ≢ b.id → newer b a ≡ false → newer a b ≡ true
unfolding newer
newer-total a b h k = ground (arith, str_lt-total a.id b.id)

module _ {ℓ} {A : Type ℓ} (at : A → Position) where
  -- Every row comes before all rows behind it.
  abbrev pub IsOrdered : List A → Type 0
  IsOrdered [] = Unit
  IsOrdered (a ∷ rest) = All (λ b. newer (at a) (at b) ≡ true) rest × IsOrdered rest

  -- No two rows share an id.
  abbrev pub HasDistinctIds : List A → Type 0
  HasDistinctIds [] = Unit
  HasDistinctIds (a ∷ rest) = All (λ b. (at a).id ≢ (at b).id) rest × HasDistinctIds rest

  insert_row-All {κ} :
      (P : A → Type κ) (a : A) (rows : List A) → P a → All P rows → All P (insert_row at a rows)
  unfolding insert_row
  insert_row-All P a [] h k = (h, tt)
  insert_row-All P a (b ∷ rows) h k = ground (arith, insert_row-All P a rows h k.1)

  pub order_rows-All {κ} :
      (P : A → Type κ) (rows : List A) → All P rows → All P (order_rows at rows)
  unfolding order_rows
  order_rows-All P [] h = tt
  order_rows-All P (a ∷ rows) h =
      insert_row-All P a (order_rows at rows) h.0 (order_rows-All P rows h.1)

  insert_row-IsOrdered :
      (a : A) (rows : List A)
      → All (λ b. (at a).id ≢ (at b).id) rows
      → IsOrdered rows
      → IsOrdered (insert_row at a rows)
  unfolding insert_row
  insert_row-IsOrdered a [] d o = (tt, tt)
  insert_row-IsOrdered a (b ∷ rows) d o = elim (Bool-cases (newer (at b) (at a))) [
    | inl e ↦ rw e (insert_row-All _ a rows e o.0, insert_row-IsOrdered a rows d.1 o.1)
    | inr e ↦
        let ab : newer (at a) (at b) ≡ true = newer-total (at a) (at b) d.0 e in
        rw e ((ab, All-map _ _ rows (λ x. newer_trans (at a) (at b) (at x) ab) o.0), o)
  ]

  pub order_rows-IsOrdered : (rows : List A) → HasDistinctIds rows → IsOrdered (order_rows at rows)
  unfolding order_rows
  order_rows-IsOrdered [] h = tt
  order_rows-IsOrdered (a ∷ rows) h =
      insert_row-IsOrdered a (order_rows at rows) (order_rows-All _ rows h.0)
        (order_rows-IsOrdered rows h.1)

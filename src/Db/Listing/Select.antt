-- ===== src/Db/Listing/Select.antt =====
-- Selecting rows commutes with ORDER BY, and what lies behind a row of an ordered list is the rest.
use tokenzy.Prelude.{
  ℕ, zero, suc, ◌≡◌, ◌≢◌, refl, subst, Bool, true, false, ◌&&◌, some, List, [], ◌∷◌, ◌++◌, arith,
  All, All-map, All-right, All-take, All-get_last?, Bool-cases, inl, inr, take, drop, get_last?,
  if◌then◌else◌,
}
use tokenzy.Prelude.Table.{select}
use tokenzy.Db.Listing.{Position, newer, insert_row, order_rows}
use tokenzy.Db.Listing.Order.{
  IsOrdered, HasDistinctIds, newer_irrefl, newer_trans, newer-total, order_rows-IsOrdered,
  order_rows-All,
}

pub newer-asym : (a b : Position) → newer a b ≡ true → newer b a ≡ false
newer-asym a b h = ground (arith, newer_trans a b a h, newer_irrefl a)

module _ {ℓ} {A : Type ℓ} where
  pub select-&& :
      (f g : A → Bool) (xs : List A) → select (λ a. f a && g a) xs ≡ select g (select f xs)
  unfolding select
  select-&& f g [] = refl
  select-&& f g (x ∷ xs) = ground (arith, select-&& f g xs)

  pub select-true : (p : A → Bool) (xs : List A) → All (λ a. p a ≡ true) xs → select p xs ≡ xs
  unfolding select
  select-true p [] h = refl
  select-true p (x ∷ xs) h = ground (arith, select-true p xs h.1)

  pub select-All {κ} :
      (P : A → Type κ) (p : A → Bool) (xs : List A) → All P xs → All P (select p xs)
  unfolding select
  select-All P p [] h = tt
  select-All P p (x ∷ xs) h = ground (arith, select-All P p xs h.1)

module _ {ℓ} {A : Type ℓ} (at : A → Position) where
  insert_row-front :
      (a : A) (rows : List A)
      → All (λ b. newer (at b) (at a) ≡ false) rows
      → insert_row at a rows ≡ a ∷ rows
  unfolding insert_row
  insert_row-front a [] h = refl
  insert_row-front a (b ∷ rows) h = ground (arith, h.0)

  select-insert_row :
      (p : A → Bool) (a : A) (rows : List A)
      → All (λ b. (at a).id ≢ (at b).id) rows
      → IsOrdered at rows
      → select p (insert_row at a rows)
        ≡ (if p a then insert_row at a (select p rows) else select p rows)
  unfolding select insert_row
  select-insert_row p a [] d o = ground arith
  select-insert_row p a (b ∷ rows) d o = elim (Bool-cases (newer (at b) (at a))) [
    | inl e ↦ ground (arith, e, select-insert_row p a rows d.1 o.1)
    | inr e ↦
        let ab : newer (at a) (at b) ≡ true = newer-total (at a) (at b) d.0 e in
        let behind : All (λ x. newer (at x) (at a) ≡ false) rows =
          All-map _ _ rows
            (λ x bx. newer-asym (at a) (at x) (newer_trans (at a) (at b) (at x) ab bx)) o.0 in
        ground (arith, e, insert_row-front a (select p rows) (select-All _ p rows behind))
  ]

  pub select-order_rows :
      (p : A → Bool) (rows : List A)
      → HasDistinctIds at rows
      → select p (order_rows at rows) ≡ order_rows at (select p rows)
  unfolding order_rows select
  select-order_rows p [] h = refl
  select-order_rows p (a ∷ rows) h = ground (
    arith,
    select-insert_row p a (order_rows at rows) (order_rows-All at _ rows h.0)
        (order_rows-IsOrdered at rows h.1),
    select-order_rows p rows h.1,
  )

  head-behind :
      (a : A) (rows : List A)
      → IsOrdered at (a ∷ rows)
      → select (λ y. newer (at a) (at y)) (a ∷ rows) ≡ rows
  unfolding select
  head-behind a rows o =
      ground (arith, newer_irrefl (at a), select-true (λ x. newer (at a) (at x)) rows o.0)

  select-behind_head :
      (m : ℕ) (rows : List A) {l : A}
      → IsOrdered at rows
      → get_last? (take (suc m) rows) ≡ some l
      → select (λ x. newer (at l) (at x)) rows ≡ drop (suc m) rows
  unfolding select
  select-behind_head m [] o e = absurd (cc)
  select-behind_head zero (a ∷ rows) {l} o e =
      let e' : a ≡ l = cc in
      subst (λ (x : A). select (λ y. newer (at x) (at y)) (a ∷ rows) ≡ rows) e'
        (head-behind a rows o)
  select-behind_head (suc m) (a ∷ []) {l} o e =
      let e' : a ≡ l = cc in
      subst (λ (x : A). select (λ y. newer (at x) (at y)) (a ∷ []) ≡ []) e' (head-behind a [] o)
  select-behind_head (suc m) (a ∷ b ∷ rows) {l} o e =
      let al : newer (at a) (at l) ≡ true =
        All-get_last? _ (take (suc m) (b ∷ rows)) (All-take _ (suc m) (b ∷ rows) o.0) e in
      ground (arith, newer-asym (at a) (at l) al, select-behind_head m (b ∷ rows) o.1 e)

  -- Behind the last of `m + 1` rows that follow `before` stand exactly the rows after those.
  pub select-behind :
      (before : List A) (m : ℕ) (rows : List A) {l : A}
      → IsOrdered at (before ++ rows)
      → get_last? (take (suc m) rows) ≡ some l
      → select (λ x. newer (at l) (at x)) (before ++ rows) ≡ drop (suc m) rows
  unfolding select
  select-behind [] m rows o e = select-behind_head m rows o e
  select-behind (a ∷ before) m rows {l} o e =
      let al : newer (at a) (at l) ≡ true =
        All-get_last? _ (take (suc m) rows) (All-take _ (suc m) rows (All-right _ before rows o.0))
          e in
      ground (arith, newer-asym (at a) (at l) al, select-behind before m rows o.1 e)

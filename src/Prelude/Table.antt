-- ===== src/Prelude/Table.antt =====
-- The SQL statements of internal/db over a table: a list of rows in insertion order.
pub mod Disjoint
pub mod Counts
pub mod Rewrite
pub mod Views
use Prim.Native.Nat.{ℕ, zero, suc, ◌+◌, ◌-◌, ◌≤◌, min}
use mathlib.Core.Path.{◌≡◌, refl}
use mathlib.Core.Logic.{inl, inr}
use mathlib.Core.Bool.{Bool, true, false, ◌&&◌}
use mathlib.Core.List.{List, [], ◌∷◌}
use mathlib.Core.Option.{Option, none, some}
use native.Mathlib.Omega.{arith}
use tokenzy.Prelude.Tests.{if◌then◌else◌, Bool-cases, ltb, ◌==◌, is_some}
use tokenzy.Prelude.Lists.{length, All}

module _ {ℓ} {A : Type ℓ} where
  -- `SELECT … WHERE p`
  unfoldable pub select : (A → Bool) → List A → List A
  select p [] = []
  select p (x ∷ xs) = if p x then x ∷ select p xs else select p xs

  -- The row that `QueryRow` sees of `SELECT … WHERE p`.
  unfoldable pub select_row : (A → Bool) → List A → Option A
  select_row p [] = none
  select_row p (x ∷ xs) = if p x then some x else select_row p xs

  -- `COUNT(*) FILTER (WHERE p)`, and the rows that a statement WHERE p affects.
  unfoldable pub count_where : (A → Bool) → List A → ℕ
  count_where p [] = 0
  count_where p (x ∷ xs) = (if p x then 1 else 0) + count_where p xs

  -- `UPDATE … SET f WHERE p`
  unfoldable pub update_where : (A → Bool) → (A → A) → List A → List A
  update_where p f [] = []
  update_where p f (x ∷ xs) = (if p x then f x else x) ∷ update_where p f xs

  -- `DELETE … WHERE p`
  unfoldable pub delete_where : (A → Bool) → List A → List A
  delete_where p [] = []
  delete_where p (x ∷ xs) = let rest = delete_where p xs in if p x then rest else x ∷ rest

  -- `DELETE … WHERE id IN (SELECT id … WHERE p LIMIT n)`, where the inner query meets the rows in
  -- the order of the table.
  unfoldable pub delete_limit : ℕ → (A → Bool) → List A → List A
  delete_limit n p [] = []
  delete_limit zero p (x ∷ xs) = x ∷ xs
  delete_limit (suc n) p (x ∷ xs) = elim (p x) [
    | true ↦ delete_limit n p xs
    | false ↦ x ∷ delete_limit (suc n) p xs
  ]

  unfoldable pub insert_by : (A → A → Bool) → A → List A → List A
  insert_by before x [] = x ∷ []
  insert_by before x (y ∷ ys) = if before y x then y ∷ insert_by before x ys else x ∷ y ∷ ys

  -- `ORDER BY`, where `before x y` says that x comes first.
  unfoldable pub sort_by : (A → A → Bool) → List A → List A
  sort_by before [] = []
  sort_by before (x ∷ xs) = insert_by before x (sort_by before xs)

  -- The rowid that SQLite gives a new row: one more than the largest.
  unfoldable pub next_rowid : (A → ℕ) → List A → ℕ
  next_rowid id [] = 1
  next_rowid id (x ∷ xs) = let n = next_rowid id xs in if ltb n (suc (id x)) then suc (id x) else n

  -- Whether the parent with the key k is among the rows that are deleted: what ON DELETE CASCADE asks
  -- of a child.
  unfoldable pub orphaned : (A → Bool) → (A → ℕ) → List A → ℕ → Bool
  orphaned p key parents k = is_some (select_row (λ e. p e && key e == k) parents)

  pub count_where-delete_limit :
      (n : ℕ) (p : A → Bool) (xs : List A)
      → count_where p (delete_limit n p xs) ≡ count_where p xs - n
  unfolding count_where delete_limit
  count_where-delete_limit n p [] = omega arith
  count_where-delete_limit zero p (x ∷ xs) = omega arith
  count_where-delete_limit (suc n) p (x ∷ xs) =
      ground (arith, count_where-delete_limit n p xs, count_where-delete_limit (suc n) p xs)

  pub length-delete_limit :
      (n : ℕ) (p : A → Bool) (xs : List A)
      → length (delete_limit n p xs) + min n (count_where p xs) ≡ length xs
  unfolding count_where delete_limit
  length-delete_limit n p [] = omega arith
  length-delete_limit zero p (x ∷ xs) = omega arith
  length-delete_limit (suc n) p (x ∷ xs) =
      ground (arith, length-delete_limit n p xs, length-delete_limit (suc n) p xs)

  -- Rows outside the condition are all kept, in their order.
  pub select-delete_limit :
      (n : ℕ) (p q : A → Bool) (xs : List A)
      → ((x : A) → q x ≡ true → p x ≡ false)
      → select q (delete_limit n p xs) ≡ select q xs
  unfolding select delete_limit
  select-delete_limit n p q [] h = refl
  select-delete_limit zero p q (x ∷ xs) h = refl
  select-delete_limit (suc n) p q (x ∷ xs) h =
      ground (arith, h x, select-delete_limit n p q xs h, select-delete_limit (suc n) p q xs h)

  pub count_where-le : (p : A → Bool) (xs : List A) → count_where p xs ≤ length xs
  unfolding count_where
  count_where-le p [] = omega arith
  count_where-le p (x ∷ xs) = ground (arith, count_where-le p xs)

  pub length-select : (p : A → Bool) (xs : List A) → length (select p xs) ≡ count_where p xs
  unfolding select count_where
  length-select p [] = refl
  length-select p (x ∷ xs) = ground (arith, length-select p xs)

  -- What `QueryRow` returns satisfies the condition.
  pub select_row-holds :
      (p : A → Bool) (xs : List A) (a : A) → select_row p xs ≡ some a → p a ≡ true
  unfolding select_row
  select_row-holds p [] a h = cc
  select_row-holds p (x ∷ xs) a h = elim (Bool-cases (p x)) [
    | inl e ↦ let e' : x ≡ a = ground arith in rw e' at e
    | inr e ↦ select_row-holds p xs a (ground arith)
  ]

  pub All-select_row {κ} :
      (P : A → Type κ) (p : A → Bool) (xs : List A) (a : A)
      → All P xs
      → select_row p xs ≡ some a
      → P a
  unfolding select_row
  All-select_row P p [] a h e = absurd (cc)
  All-select_row P p (x ∷ xs) a h e = elim (Bool-cases (p x)) [
    | inl t ↦ let e' : x ≡ a = ground arith in rw e' at h.0
    | inr t ↦ All-select_row P p xs a h.1 (ground arith)
  ]

  pub All-delete_limit {κ} :
      (P : A → Type κ) (n : ℕ) (p : A → Bool) (xs : List A) → All P xs → All P (delete_limit n p xs)
  unfolding delete_limit
  All-delete_limit P n p [] h = tt
  All-delete_limit P zero p (x ∷ xs) h = h
  All-delete_limit P (suc n) p (x ∷ xs) h =
      ground (arith, All-delete_limit P n p xs h.1, All-delete_limit P (suc n) p xs h.1)

  pub All-delete_where {κ} :
      (P : A → Type κ) (p : A → Bool) (xs : List A) → All P xs → All P (delete_where p xs)
  unfolding delete_where
  All-delete_where P p [] h = tt
  All-delete_where P p (x ∷ xs) h = ground (arith, All-delete_where P p xs h.1)

  pub All-update_where {κ} :
      (P : A → Type κ) (p : A → Bool) (f : A → A) (xs : List A)
      → ((x : A) → p x ≡ true → P x → P (f x))
      → All P xs
      → All P (update_where p f xs)
  unfolding update_where
  All-update_where P p f [] k h = tt
  All-update_where P p f (x ∷ xs) k h = elim (Bool-cases (p x)) [
    | inl e ↦ rw e (k x e h.0, All-update_where P p f xs k h.1)
    | inr e ↦ rw e (h.0, All-update_where P p f xs k h.1)
  ]

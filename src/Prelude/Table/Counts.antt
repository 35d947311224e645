-- ===== src/Prelude/Table/Counts.antt =====
-- How statements change the number of rows that satisfy a condition.
use Prim.Native.Nat.{ℕ, zero, suc, ◌+◌, ◌≤◌}
use mathlib.Core.Path.{◌≡◌, refl}
use mathlib.Core.Bool.{Bool, true, ◌&&◌}
use mathlib.Core.List.{List, [], ◌∷◌, ◌++◌}
use native.Mathlib.Omega.{arith}
use tokenzy.Prelude.Table.{
  select, count_where, update_where, delete_where, delete_limit, insert_by, sort_by,
}

module _ {ℓ} {A : Type ℓ} where
  pub count-update_where :
      (q p : A → Bool) (f : A → A) (xs : List A)
      → ((x : A) → p x ≡ true → q (f x) ≡ true → q x ≡ true)
      → count_where q (update_where p f xs) ≤ count_where q xs
  unfolding count_where update_where
  count-update_where q p f [] h = omega arith
  count-update_where q p f (x ∷ xs) h = ground (arith, h x, count-update_where q p f xs h)

  pub count-delete_where :
      (q p : A → Bool) (xs : List A) → count_where q (delete_where p xs) ≤ count_where q xs
  unfolding count_where delete_where
  count-delete_where q p [] = omega arith
  count-delete_where q p (x ∷ xs) = ground (arith, count-delete_where q p xs)

  pub count-delete_limit :
      (q : A → Bool) (n : ℕ) (p : A → Bool) (xs : List A)
      → count_where q (delete_limit n p xs) ≤ count_where q xs
  unfolding count_where delete_limit
  count-delete_limit q n p [] = omega arith
  count-delete_limit q zero p (x ∷ xs) = omega arith
  count-delete_limit q (suc n) p (x ∷ xs) =
      ground (arith, count-delete_limit q n p xs, count-delete_limit q (suc n) p xs)

  pub count-append :
      (q : A → Bool) (xs ys : List A)
      → count_where q (xs ++ ys) ≡ count_where q xs + count_where q ys
  unfolding count_where
  count-append q [] ys = omega arith
  count-append q (x ∷ xs) ys = ground (arith, count-append q xs ys)

  pub count-weaker :
      (p q : A → Bool) (xs : List A)
      → ((x : A) → p x ≡ true → q x ≡ true)
      → count_where p xs ≤ count_where q xs
  unfolding count_where
  count-weaker p q [] h = omega arith
  count-weaker p q (x ∷ xs) h = ground (arith, h x, count-weaker p q xs h)

  count-insert_by :
      (q : A → Bool) (before : A → A → Bool) (x : A) (xs : List A)
      → count_where q (insert_by before x xs) ≡ count_where q (x ∷ xs)
  unfolding count_where insert_by
  count-insert_by q before x [] = refl
  count-insert_by q before x (y ∷ ys) = ground (arith, count-insert_by q before x ys)

  pub count-sort_by :
      (q : A → Bool) (before : A → A → Bool) (xs : List A)
      → count_where q (sort_by before xs) ≡ count_where q xs
  unfolding count_where sort_by
  count-sort_by q before [] = refl
  count-sort_by q before (x ∷ xs) =
      ground (arith, count-insert_by q before x (sort_by before xs), count-sort_by q before xs)

  pub count-select :
      (q r : A → Bool) (xs : List A)
      → count_where q (select r xs) ≡ count_where (λ x. r x && q x) xs
  unfolding count_where select
  count-select q r [] = refl
  count-select q r (x ∷ xs) = ground (arith, count-select q r xs)

  pub count-same :
      (q r : A → Bool) (xs : List A) → ((x : A) → q x ≡ r x) → count_where q xs ≡ count_where r xs
  unfolding count_where
  count-same q r [] h = refl
  count-same q r (x ∷ xs) h = ground (arith, h x, count-same q r xs h)

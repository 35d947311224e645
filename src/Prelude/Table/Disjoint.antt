-- ===== src/Prelude/Table/Disjoint.antt =====
-- Statements whose conditions do not overlap with a query leave the query's answer alone.
use Prim.Native.Nat.{ℕ, zero, suc}
use mathlib.Core.Path.{◌≡◌, refl}
use mathlib.Core.Bool.{Bool, true, false}
use mathlib.Core.List.{List, [], ◌∷◌, ◌++◌}
use mathlib.Core.Option.{none}
use native.Mathlib.Omega.{arith}
use tokenzy.Prelude.Table.{select, select_row, update_where, delete_where, delete_limit}

module _ {ℓ} {A : Type ℓ} (q : A → Bool) where
  pub select-append : (xs ys : List A) → select q (xs ++ ys) ≡ select q xs ++ select q ys
  unfolding select
  select-append [] ys = refl
  select-append (x ∷ xs) ys = ground (arith, select-append xs ys)

  pub select-update_where :
      (p : A → Bool) (f : A → A) (xs : List A)
      → ((x : A) → p x ≡ true → (q x ≡ false) × (q (f x) ≡ false))
      → select q (update_where p f xs) ≡ select q xs
  unfolding select update_where
  select-update_where p f [] h = refl
  select-update_where p f (x ∷ xs) h = ground (arith, h x, select-update_where p f xs h)

  pub select-delete_where :
      (p : A → Bool) (xs : List A)
      → ((x : A) → p x ≡ true → q x ≡ false)
      → select q (delete_where p xs) ≡ select q xs
  unfolding select delete_where
  select-delete_where p [] h = refl
  select-delete_where p (x ∷ xs) h = ground (arith, h x, select-delete_where p xs h)

  pub select_row-delete_limit :
      (n : ℕ) (p : A → Bool) (xs : List A)
      → ((x : A) → p x ≡ true → q x ≡ false)
      → select_row q (delete_limit n p xs) ≡ select_row q xs
  unfolding select_row delete_limit
  select_row-delete_limit n p [] h = refl
  select_row-delete_limit zero p (x ∷ xs) h = refl
  select_row-delete_limit (suc n) p (x ∷ xs) h =
      ground (arith, h x, select_row-delete_limit n p xs h, select_row-delete_limit (suc n) p xs h)

  pub select_row-delete_where :
      (p : A → Bool) (xs : List A)
      → ((x : A) → q x ≡ true → p x ≡ true)
      → select_row q (delete_where p xs) ≡ none
  unfolding select_row delete_where
  select_row-delete_where p [] h = refl
  select_row-delete_where p (x ∷ xs) h = ground (arith, h x, select_row-delete_where p xs h)

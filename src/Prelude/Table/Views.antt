-- ===== src/Prelude/Table/Views.antt =====
-- What a query sees of a statement, from what it saw before.
use Prim.Native.Nat.{ℕ, zero, suc}
use mathlib.Core.Path.{◌≡◌, refl}
use mathlib.Core.Logic.{◌⊎◌, inl, inr}
use mathlib.Core.Bool.{Bool, true}
use mathlib.Core.List.{List, [], ◌∷◌}
use mathlib.Core.Option.{none}
use native.Mathlib.Omega.{arith}
use tokenzy.Prelude.Tests.{Bool-cases}
use tokenzy.Prelude.Table.{select, select_row, update_where, delete_where, delete_limit}

module _ {ℓ} {A : Type ℓ} (q p : A → Bool) where
  pub select-update :
      (f : A → A) (xs : List A)
      → ((x : A) → q (f x) ≡ q x)
      → select q (update_where p f xs) ≡ update_where p f (select q xs)
  unfolding select update_where
  select-update f [] h = refl
  select-update f (x ∷ xs) h = ground (arith, h x, select-update f xs h)

  pub select-delete : (xs : List A) → select q (delete_where p xs) ≡ delete_where p (select q xs)
  unfolding select delete_where
  select-delete [] = refl
  select-delete (x ∷ xs) = ground (arith, select-delete xs)

  pub select_row-select :
      (xs : List A)
      → ((x : A) → p x ≡ true → q x ≡ true)
      → select_row p xs ≡ select_row p (select q xs)
  unfolding select select_row
  select_row-select [] h = refl
  select_row-select (x ∷ xs) h = ground (arith, h x, select_row-select xs h)

  pub update_where-none :
      (f : A → A) (xs : List A) → select_row p xs ≡ none → update_where p f xs ≡ xs
  unfolding select_row update_where
  update_where-none f [] h = refl
  update_where-none f (x ∷ xs) h = ground (arith, update_where-none f xs)

  pub select-delete_limit_none :
      (n : ℕ) (xs : List A) → select q xs ≡ [] → select q (delete_limit n p xs) ≡ []
  unfolding select delete_limit
  select-delete_limit_none n [] h = refl
  select-delete_limit_none zero (x ∷ xs) h = h
  select-delete_limit_none (suc n) (x ∷ xs) h =
      ground (arith, select-delete_limit_none n xs, select-delete_limit_none (suc n) xs)

  -- A row that is the only one seen stays so, or met the condition and is gone.
  pub select-delete_limit_one :
      (n : ℕ) (xs : List A) (a : A)
      → select q xs ≡ a ∷ []
      → (select q (delete_limit n p xs) ≡ a ∷ [])
        ⊎ ((p a ≡ true) × (select q (delete_limit n p xs) ≡ []))
  unfolding select delete_limit
  select-delete_limit_one n [] a h = inl h
  select-delete_limit_one zero (x ∷ xs) a h = inl h
  select-delete_limit_one (suc n) (x ∷ xs) a h = elim (Bool-cases (q x)) [
    | inl e ↦ ground (arith, select-delete_limit_none n xs, select-delete_limit_none (suc n) xs)
    | inr e ↦ ground (arith, select-delete_limit_one n xs a, select-delete_limit_one (suc n) xs a)
  ]

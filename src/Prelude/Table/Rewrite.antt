-- ===== src/Prelude/Table/Rewrite.antt =====
-- What holds of the rows after an UPDATE.
use mathlib.Core.Path.{◌≡◌}
use mathlib.Core.Logic.{inl, inr}
use mathlib.Core.Bool.{Bool, true, false}
use mathlib.Core.List.{List, [], ◌∷◌}
use tokenzy.Prelude.Tests.{Bool-cases}
use tokenzy.Prelude.Lists.{All}
use tokenzy.Prelude.Table.{update_where}

pub All-rewrite {ℓ κ μ} :
    {A : Type ℓ} (P : A → Type κ) (Q : A → Type μ) (p : A → Bool) (f : A → A) (xs : List A)
    → ((x : A) → p x ≡ true → P x → Q (f x))
    → ((x : A) → p x ≡ false → P x → Q x)
    → All P xs
    → All Q (update_where p f xs)
unfolding update_where
All-rewrite P Q p f [] h k l = tt
All-rewrite P Q p f (x ∷ xs) h k l = elim (Bool-cases (p x)) [
  | inl e ↦ rw e (h x e l.0, All-rewrite P Q p f xs h k l.1)
  | inr e ↦ rw e (k x e l.0, All-rewrite P Q p f xs h k l.1)
]

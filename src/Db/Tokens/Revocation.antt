-- ===== src/Db/Tokens/Revocation.antt =====
-- A token that was revoked or deleted is never redeemed again.
use tokenzy.Prelude.{
  ℕ, ◌≡◌, refl, true, false, List, [], ◌∷◌, none, arith, All, is_some, inl, inr, Option-cases,
}
use tokenzy.Prelude.Str.{Str, str_eq, str_eq-eq}
use tokenzy.Prelude.Table.{select_row, select_row-holds, All-select_row, update_where, delete_where}
use tokenzy.Model.{Token}
use tokenzy.Db.{Database}
use tokenzy.Db.Tokens.{
  redeemable, spend, cancel, revocable, by_id, consume_token, revoke_token, delete_token,
}
use tokenzy.Db.Tokens.Writes.{tokens-emit_token_event}
use tokenzy.Db.Tokens.Trace.{TokenCall, consume, step, redeems, redemptions}
use tokenzy.Db.Tokens.Rowwise.{CreatesOther, step-All}

module _ (value : Str) where
  -- Whatever row has the value is revoked.
  abbrev pub IsCancelled : Token → Type 0
  IsCancelled t = str_eq t.value value ≡ true → is_some t.revoked_at ≡ true

  step-IsCancelled :
      (ts : ℕ) (c : TokenCall) (d : Database)
      → CreatesOther value c
      → All IsCancelled d.tokens
      → All IsCancelled (step ts c d).tokens
  step-IsCancelled =
      step-All IsCancelled value (λ ts t h. unfold spend in h) (λ ts t h _. refl)
        (λ ts env id v p m x o e. cc (o, e))

  redeemable-cancelled :
      (ts env : ℕ) (v : Str) (t : Token)
      → redeemable ts env v t ≡ true
      → IsCancelled t
      → str_eq v value ≡ false
  unfolding redeemable
  redeemable-cancelled ts env v t h k = ground (arith, k, str_eq-eq t.value v)

  redeems-cancelled :
      (ts : ℕ) (c : TokenCall) (d : Database)
      → All IsCancelled d.tokens
      → redeems value ts c d ≡ false
  unfolding redeems consume_token
  redeems-cancelled ts (consume env v) d l =
      elim (Option-cases (select_row (redeemable ts env v) d.tokens)) [
        | inl e ↦ rw (e, consume_token) (ground arith)
        | inr (t, e) ↦ ground (
          arith,
          redeemable-cancelled ts env v t (select_row-holds _ d.tokens t e)
              (All-select_row IsCancelled _ d.tokens t l e),
        )
      ]
  redeems-cancelled ts _ d l = refl

  redemptions-cancelled :
      (cs : List (ℕ × TokenCall)) (d : Database)
      → All (λ c. CreatesOther value c.1) cs
      → All IsCancelled d.tokens
      → redemptions value cs d ≡ 0
  unfolding redemptions
  redemptions-cancelled [] d o l = refl
  redemptions-cancelled ((ts, c) ∷ cs) d o l = ground (
    arith,
    redeems-cancelled ts c d l,
    redemptions-cancelled cs (step ts c d) o.1 (step-IsCancelled ts c d o.0 l),
  )

  -- The rows of the value are the token `id` of the environment.
  abbrev pub IsOwned : ℕ → Str → Token → Type 0
  IsOwned env id t = str_eq t.value value ≡ true → by_id env id t ≡ true

  cancel-IsCancelled :
      (ts env : ℕ) (id : Str) (rows : List Token)
      → All (IsOwned env id) rows
      → All IsCancelled (update_where (revocable env id) (cancel ts) rows)
  unfolding update_where
  cancel-IsCancelled ts env id [] h = tt
  cancel-IsCancelled ts env id (t ∷ rows) h =
      (λ e. ground (arith, h.0), cancel-IsCancelled ts env id rows h.1)

  none-IsCancelled :
      (env : ℕ) (id : Str) (rows : List Token)
      → All (IsOwned env id) rows
      → select_row (revocable env id) rows ≡ none
      → All IsCancelled rows
  unfolding select_row
  none-IsCancelled env id [] h e = tt
  none-IsCancelled env id (t ∷ rows) h e = ground (arith, h.0, none-IsCancelled env id rows h.1)

  revoke-IsCancelled :
      (ts env : ℕ) (id : Str) (d : Database)
      → All (IsOwned env id) d.tokens
      → All IsCancelled (revoke_token ts env id d).1.tokens
  unfolding revoke_token
  revoke-IsCancelled ts env id d h = elim (Option-cases (select_row (revocable env id) d.tokens)) [
    | inl e ↦ rw (e, revoke_token) (none-IsCancelled env id d.tokens h e)
    | inr (row, e) ↦
        rw (e, revoke_token) (rw tokens-emit_token_event (cancel-IsCancelled ts env id d.tokens h))
  ]

  delete-IsCancelled :
      (env : ℕ) (id : Str) (rows : List Token)
      → All (IsOwned env id) rows
      → All IsCancelled (delete_where (by_id env id) rows)
  unfolding delete_where
  delete-IsCancelled env id [] h = tt
  delete-IsCancelled env id (t ∷ rows) h = ground (arith, h.0, delete-IsCancelled env id rows h.1)

  -- Where every row of a value is the token `id` of an environment, no redemption of the value is
  -- accepted after that token was revoked, nor after it was deleted, whatever calls come in
  -- between, as long as none issues the value anew.
  pub redemptions-revoked :
      (ts env : ℕ) (id : Str) (d : Database) (cs : List (ℕ × TokenCall))
      → All (IsOwned env id) d.tokens
      → All (λ c. CreatesOther value c.1) cs
      → (redemptions value cs (revoke_token ts env id d).1 ≡ 0)
        × (redemptions value cs (delete_token env id d).1 ≡ 0)
  redemptions-revoked ts env id d cs h o = (
    redemptions-cancelled cs _ o (revoke-IsCancelled ts env id d h),
    redemptions-cancelled cs _ o (unfold delete_token in delete-IsCancelled env id d.tokens h),
  )

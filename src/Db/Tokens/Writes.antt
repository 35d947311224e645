-- ===== src/Db/Tokens/Writes.antt =====
-- What each query leaves in the tokens table: one rule for each, over any predicate on the rows.
use tokenzy.Prelude.{
  ℕ, ◌≡◌, inl, inr, Option, some, List, [], ◌∷◌, ◌++◌, arith, Bool-cases, Option-cases, not,
}
use tokenzy.Prelude.Str.{Str}
use tokenzy.Prelude.Table.{select_row, update_where}
use tokenzy.Model.{Token, EventType}
use tokenzy.Db.{Database, emit_token_event}
use tokenzy.Db.Tokens.{
  token_clash, env_exists, new_token, create_token, redeemable, spend, consume_token, revocable,
  cancel, emit_if_exhausted, revoke_token,
}

pub tokens-emit_token_event :
    (env : ℕ) (k : EventType) (t : Token) (d : Database)
    → (emit_token_event env k t d).tokens ≡ d.tokens
unfolding emit_token_event
tokens-emit_token_event env k t d = ground arith

pub tokens-emit_if_exhausted :
    (ts env : ℕ) (t : Token) (d : Database) → (emit_if_exhausted ts env t d).tokens ≡ d.tokens
tokens-emit_if_exhausted ts env t d =
    ground (arith, tokens-emit_token_event env EventType.token_exhausted t d)

module _ {ℓ} (P : List Token → Type ℓ) (d : Database) (keep : P d.tokens) where
  pub create_token-rows :
      (ts env : ℕ) (id value payload : Str) (m : Option ℕ) (x : ℕ)
      → P (d.tokens ++ new_token ts env id value payload m x ∷ [])
      → P (create_token ts env id value payload m x d).1.tokens
  unfolding create_token
  create_token-rows ts env id value payload m x h =
      elim (Bool-cases (token_clash id value d.tokens)) [
        | inl e ↦ rw (e, create_token) keep
        | inr e ↦ elim (Bool-cases (not (env_exists env d.environments))) [
          | inl f ↦ rw (e, create_token) (rw f keep)
          | inr f ↦ rw (e, create_token) (rw f (rw tokens-emit_token_event h))
        ]
      ]

  pub consume_token-rows :
      (ts env : ℕ) (value : Str)
      → ((row : Token)
          → select_row (redeemable ts env value) d.tokens ≡ some row
          → P (update_where (redeemable ts env value) (spend ts) d.tokens))
      → P (consume_token ts env value d).1.tokens
  unfolding consume_token
  consume_token-rows ts env value h =
      elim (Option-cases (select_row (redeemable ts env value) d.tokens)) [
        | inl e ↦ rw (e, consume_token) keep
        | inr (row, e) ↦
            rw (e, consume_token)
              (rw tokens-emit_if_exhausted (rw tokens-emit_token_event (h row e)))
      ]

  pub revoke_token-rows :
      (ts env : ℕ) (id : Str)
      → P (update_where (revocable env id) (cancel ts) d.tokens)
      → P (revoke_token ts env id d).1.tokens
  unfolding revoke_token
  revoke_token-rows ts env id h = elim (Option-cases (select_row (revocable env id) d.tokens)) [
    | inl e ↦ rw (e, revoke_token) keep
    | inr (row, e) ↦ rw (e, revoke_token) (rw tokens-emit_token_event h)
  ]

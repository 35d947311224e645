-- ===== src/Db/Tokens/Isolation.antt =====
-- A call on one environment neither reads nor writes the tokens of another.
use tokenzy.Prelude.{ℕ, ◌≡◌, ◌≢◌, refl, sym, ◌∙◌, Bool, List, [], ◌∷◌, ◌++◌, Option, arith, ◌==◌}
use tokenzy.Prelude.Str.{Str}
use tokenzy.Prelude.Table.{select}
use tokenzy.Prelude.Table.Disjoint.{select-update_where, select-delete_where}
use tokenzy.Model.{Token}
use tokenzy.Db.{Database}
use tokenzy.Db.Tokens.{redeemable, spend, revocable, cancel, by_id, new_token, delete_token}
use tokenzy.Db.Tokens.Writes.{create_token-rows, consume_token-rows, revoke_token-rows}
use tokenzy.Db.Tokens.Trace.{
  TokenCall, create, consume, revoke, delete, sweep_expired, sweep_settled, step,
}

abbrev pub of_env : ℕ → Token → Bool
of_env env t = t.environment_id == env

-- The environment that the key of a call is bound to; the sweeps have none.
abbrev pub OnEnv : ℕ → TokenCall → Type 0
OnEnv env (create e id v p m x) = e ≡ env
OnEnv env (consume e v) = e ≡ env
OnEnv env (revoke e id) = e ≡ env
OnEnv env (delete e id) = e ≡ env
OnEnv env (sweep_expired b l) = ⊥
OnEnv env (sweep_settled b l) = ⊥

module _ (other : ℕ) where
  select-new :
      (ts env : ℕ) (id v p : Str) (m : Option ℕ) (x : ℕ) (rows : List Token)
      → env ≢ other
      → select (of_env other) (rows ++ new_token ts env id v p m x ∷ [])
        ≡ select (of_env other) rows
  unfolding select
  select-new ts env id v p m x [] h = ground arith
  select-new ts env id v p m x (t ∷ rows) h = ground (arith, select-new ts env id v p m x rows h)

  -- Every request on one environment leaves the rows of every other as they were.
  pub step-other_env :
      (ts env : ℕ) (c : TokenCall) (d : Database)
      → OnEnv env c
      → env ≢ other
      → select (of_env other) (step ts c d).tokens ≡ select (of_env other) d.tokens
  unfolding step
  step-other_env ts env (create e id v p m x) d o h =
      create_token-rows (λ rows. select (of_env other) rows ≡ select (of_env other) d.tokens) d refl
        ts e id v p m x (select-new ts e id v p m x d.tokens (λ k. h (sym o ∙ k)))
  step-other_env ts env (consume e v) d o h =
      consume_token-rows (λ rows. select (of_env other) rows ≡ select (of_env other) d.tokens) d
        refl ts e v
        (λ row k.
          select-update_where (of_env other) (redeemable ts e v) (spend ts) d.tokens
            (λ t r. unfold redeemable spend in ground arith))
  step-other_env ts env (revoke e id) d o h =
      revoke_token-rows (λ rows. select (of_env other) rows ≡ select (of_env other) d.tokens) d refl
        ts e id
        (select-update_where (of_env other) (revocable e id) (cancel ts) d.tokens
          (λ t r. ground arith))
  step-other_env ts env (delete e id) d o h =
      unfold delete_token in
      select-delete_where (of_env other) (by_id e id) d.tokens (λ t r. ground arith)
  step-other_env ts env (sweep_expired b l) d o h = absurd o
  step-other_env ts env (sweep_settled b l) d o h = absurd o

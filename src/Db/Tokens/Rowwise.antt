-- ===== src/Db/Tokens/Rowwise.antt =====
-- An invariant of single rows is kept by every call that keeps it row by row.
use tokenzy.Prelude.{ℕ, Option, All, All-append, ◌≡◌, false}
use tokenzy.Prelude.Str.{Str, str_eq}
use tokenzy.Prelude.Table.{All-update_where, All-delete_where, All-delete_limit}
use tokenzy.Model.{Token}
use tokenzy.Db.{Database}
use tokenzy.Db.Tokens.{
  redeemable, spend, cancel, revocable, by_id, new_token, delete_token, delete_expired_tokens,
  delete_settled_tokens,
}
use tokenzy.Db.Tokens.Writes.{create_token-rows, consume_token-rows, revoke_token-rows}
use tokenzy.Db.Tokens.Trace.{
  TokenCall, create, consume, revoke, delete, sweep_expired, sweep_settled, step,
}

-- The call does not issue the value.
abbrev pub CreatesOther : Str → TokenCall → Type 0
CreatesOther value (create env id v payload max_uses expires_at) = str_eq v value ≡ false
CreatesOther value _ = Unit

module _ (Q : Token → Type 0) (value : Str) (spending : (ts : ℕ) (t : Token) → Q t → Q (spend ts t))
    (cancelling : (ts : ℕ) (t : Token) → Q t → Q (cancel ts t))
    (creating : (ts env : ℕ) (id v payload : Str) (m : Option ℕ) (x : ℕ)
      → str_eq v value ≡ false
      → Q (new_token ts env id v payload m x)) where
  pub step-All :
      (ts : ℕ) (c : TokenCall) (d : Database)
      → CreatesOther value c
      → All Q d.tokens
      → All Q (step ts c d).tokens
  unfolding step
  step-All ts (create env id v payload m x) d o l =
      create_token-rows (All Q) d l ts env id v payload m x
        (All-append Q d.tokens _ l (creating ts env id v payload m x o, tt))
  step-All ts (consume env v) d o l = consume_token-rows (All Q) d l ts env v (λ row e.
      All-update_where Q (redeemable ts env v) (spend ts) d.tokens (λ t _. spending ts t) l)
  step-All ts (revoke env id) d o l =
      revoke_token-rows (All Q) d l ts env id
        (All-update_where Q (revocable env id) (cancel ts) d.tokens (λ t _. cancelling ts t) l)
  step-All ts (delete env id) d o l =
      unfold delete_token in All-delete_where Q (by_id env id) d.tokens l
  step-All ts (sweep_expired before limit) d o l =
      unfold delete_expired_tokens in All-delete_limit Q limit _ d.tokens l
  step-All ts (sweep_settled before limit) d o l =
      unfold delete_settled_tokens in All-delete_limit Q limit _ d.tokens l

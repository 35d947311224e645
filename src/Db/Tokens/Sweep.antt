-- ===== src/Db/Tokens/Sweep.antt =====
-- The retention sweep never changes the answer to a redemption.
use tokenzy.Prelude.{ℕ, ◌≤◌, ◌≡◌, true, false, arith, ltb}
use tokenzy.Prelude.Str.{Str}
use tokenzy.Prelude.Table.{select_row}
use tokenzy.Prelude.Table.Disjoint.{select_row-delete_limit}
use tokenzy.Model.{Token}
use tokenzy.Db.{Database}
use tokenzy.Db.Tokens.{
  redeemable, settled, consume_token, delete_expired_tokens, delete_settled_tokens,
}

-- The answer depends only on the row that the UPDATE finds.
pub answer :
    (ts env : ℕ) (v : Str) (d e : Database)
    → select_row (redeemable ts env v) e.tokens ≡ select_row (redeemable ts env v) d.tokens
    → (consume_token ts env v e).0 ≡ (consume_token ts env v d).0
unfolding consume_token
answer ts env v d e h = ground arith

expired_dead :
    (ts env : ℕ) (v : Str) (before : ℕ) (t : Token)
    → before ≤ ts
    → ltb t.expires_at before ≡ true
    → redeemable ts env v t ≡ false
unfolding redeemable
expired_dead ts env v before t h k = ground arith

settled_dead :
    (ts env : ℕ) (v : Str) (before : ℕ) (t : Token)
    → settled before t ≡ true
    → redeemable ts env v t ≡ false
unfolding redeemable settled
settled_dead ts env v before t k = ground arith

-- A sweep of expired and of settled tokens, up to any horizon that is not in the future, leaves the
-- answer to every later redemption as it was: it deletes no token that could still be spent.
pub consume_token-after_sweep :
    (ts env : ℕ) (v : Str) (before settled_before limit : ℕ) (d : Database)
    → before ≤ ts
    → ((consume_token ts env v (delete_expired_tokens before limit d).1).0
        ≡ (consume_token ts env v d).0)
      × ((consume_token ts env v (delete_settled_tokens settled_before limit d).1).0
          ≡ (consume_token ts env v d).0)
unfolding delete_expired_tokens delete_settled_tokens
consume_token-after_sweep ts env v before sb limit d h = (
  answer ts env v d _ (
      select_row-delete_limit (redeemable ts env v) limit (λ (t : Token). ltb t.expires_at before)
        d.tokens (λ t. expired_dead ts env v before t h)),
  answer ts env v d _ (
      select_row-delete_limit (redeemable ts env v) limit (settled sb) d.tokens
        (settled_dead ts env v sb)),
)

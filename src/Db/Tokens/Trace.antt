-- ===== src/Db/Tokens/Trace.antt =====
-- Sequences of calls on the tokens table, each at its own time, in the order in which the single
-- write connection takes them.
use tokenzy.Prelude.{ℕ, ◌+◌, Bool, true, false, List, [], ◌∷◌, Option, if◌then◌else◌}
use tokenzy.Prelude.Str.{Str, str_eq}
use tokenzy.Db.{Database, Result, ok, err}
use tokenzy.Db.Tokens.{
  create_token, consume_token, revoke_token, delete_token, delete_expired_tokens,
  delete_settled_tokens,
}

pub data TokenCall : Type 0 where
  create : ℕ → Str → Str → Str → Option ℕ → ℕ → TokenCall
  consume : ℕ → Str → TokenCall
  revoke delete : ℕ → Str → TokenCall
  sweep_expired sweep_settled : ℕ → ℕ → TokenCall

unfoldable pub step : ℕ → TokenCall → Database → Database
step ts (create env id value payload max_uses expires_at) d =
    (create_token ts env id value payload max_uses expires_at d).1
step ts (consume env value) d = (consume_token ts env value d).1
step ts (revoke env id) d = (revoke_token ts env id d).1
step ts (delete env id) d = (delete_token env id d).1
step ts (sweep_expired before limit) d = (delete_expired_tokens before limit d).1
step ts (sweep_settled before limit) d = (delete_settled_tokens before limit d).1

unfoldable pub run : List (ℕ × TokenCall) → Database → Database
run [] d = d
run ((ts, c) ∷ cs) d = run cs (step ts c d)

abbrev pub accepted {ℓ} : {A : Type ℓ} → Result A → Bool
accepted (ok a) = true
accepted (err e) = false

-- Whether a call is an accepted redemption of the value.
unfoldable pub redeems : Str → ℕ → TokenCall → Database → Bool
redeems value ts (consume env v) d =
    if str_eq v value then accepted (consume_token ts env v d).0 else false
redeems value ts _ d = false

unfoldable pub redemptions : Str → List (ℕ × TokenCall) → Database → ℕ
redemptions value [] d = 0
redemptions value ((ts, c) ∷ cs) d =
    (if redeems value ts c d then 1 else 0) + redemptions value cs (step ts c d)

-- ===== src/Db/Tokens/Budget.antt =====
-- However the calls interleave, a value is redeemed at most as often as its limit leaves room for.
use tokenzy.Prelude.{
  ℕ, zero, suc, ◌+◌, ◌-◌, ◌≤◌, ◌≡◌, refl, Bool, true, false, inl, inr, none, some, List, [], ◌∷◌,
  ◌++◌, arith, if◌then◌else◌, is_some, ltb, All, Option-cases,
}
use tokenzy.Prelude.Str.{Str, str_eq, str_eq-eq}
use tokenzy.Prelude.Table.{select_row, update_where, delete_where, delete_limit}
use tokenzy.Model.{Token}
use tokenzy.Db.{Database}
use tokenzy.Db.Tokens.{
  redeemable, spend, cancel, revocable, by_id, settled, new_token, consume_token, delete_token,
  delete_expired_tokens, delete_settled_tokens,
}
use tokenzy.Db.Tokens.Writes.{
  create_token-rows, revoke_token-rows, tokens-emit_token_event, tokens-emit_if_exhausted,
}
use tokenzy.Db.Tokens.Rowwise.{CreatesOther, step-All}
use tokenzy.Db.Tokens.Trace.{
  TokenCall, create, consume, revoke, delete, sweep_expired, sweep_settled, step, redeems,
  redemptions, accepted,
}

-- The uses that a row of the value still has.
abbrev pub uses_left : Str → Token → ℕ
uses_left value t =
    if str_eq t.value value then elim t.max_uses [ none ↦ 0 | some m ↦ m - t.used_count ] else 0

abbrev pub room : Str → List Token → ℕ
room value [] = 0
room value (t ∷ ts) = uses_left value t + room value ts

-- Rows of the value have a limit.
abbrev pub IsLimited : Str → Token → Type 0
IsLimited value t = str_eq t.value value ≡ true → is_some t.max_uses ≡ true

module _ (value : Str) where
  uses_left-spend :
      (ts env : ℕ) (v : Str) (t : Token)
      → redeemable ts env v t ≡ true
      → IsLimited value t
      → uses_left value (spend ts t) + (if str_eq v value then 1 else 0) ≤ uses_left value t
  unfolding redeemable spend
  uses_left-spend ts env v t h l = ground (arith, str_eq-eq t.value v, l)

  room-spend :
      (ts env : ℕ) (v : Str) (rows : List Token)
      → All (IsLimited value) rows
      → room value (update_where (redeemable ts env v) (spend ts) rows) ≤ room value rows
  unfolding update_where
  room-spend ts env v [] l = omega arith
  room-spend ts env v (t ∷ rows) l =
      ground (arith, uses_left-spend ts env v t, room-spend ts env v rows l.1)

  room-hit :
      (ts env : ℕ) (v : Str) (rows : List Token) (row : Token)
      → All (IsLimited value) rows
      → select_row (redeemable ts env v) rows ≡ some row
      → room value (update_where (redeemable ts env v) (spend ts) rows)
          + (if str_eq v value then 1 else 0)
        ≤ room value rows
  unfolding update_where select_row
  room-hit ts env v [] row l e = cc
  room-hit ts env v (t ∷ rows) row l e = ground (
    arith,
    uses_left-spend ts env v t,
    room-spend ts env v rows l.1,
    room-hit ts env v rows row l.1,
  )

  room-cancel :
      (ts env : ℕ) (id : Str) (rows : List Token)
      → room value (update_where (revocable env id) (cancel ts) rows) ≡ room value rows
  unfolding update_where
  room-cancel ts env id [] = refl
  room-cancel ts env id (t ∷ rows) = ground (arith, room-cancel ts env id rows)

  room-delete_where :
      (p : Token → Bool) (rows : List Token) → room value (delete_where p rows) ≤ room value rows
  unfolding delete_where
  room-delete_where p [] = omega arith
  room-delete_where p (t ∷ rows) = ground (arith, room-delete_where p rows)

  room-delete_limit :
      (n : ℕ) (p : Token → Bool) (rows : List Token)
      → room value (delete_limit n p rows) ≤ room value rows
  unfolding delete_limit
  room-delete_limit n p [] = omega arith
  room-delete_limit zero p (t ∷ rows) = omega arith
  room-delete_limit (suc n) p (t ∷ rows) =
      ground (arith, room-delete_limit n p rows, room-delete_limit (suc n) p rows)

  room-append : (xs ys : List Token) → room value (xs ++ ys) ≡ room value xs + room value ys
  room-append [] ys = omega arith
  room-append (x ∷ xs) ys = omega (arith, room-append xs ys)

  consumed-room :
      (ts env : ℕ) (v : Str) (d : Database)
      → All (IsLimited value) d.tokens
      → room value (consume_token ts env v d).1.tokens
          + (if (if str_eq v value then accepted (consume_token ts env v d).0 else false)
              then 1
              else 0)
        ≤ room value d.tokens
  unfolding consume_token
  consumed-room ts env v d l = elim (Option-cases (select_row (redeemable ts env v) d.tokens)) [
    | inl e ↦ rw (e, consume_token) (ground arith)
    | inr (t, e) ↦
        rw (e, consume_token)
          (rw tokens-emit_if_exhausted
            (rw tokens-emit_token_event (ground (arith, room-hit ts env v d.tokens t l e))))
  ]

  -- Each call keeps the limits and uses up room for what it redeems.
  step-room :
      (ts : ℕ) (c : TokenCall) (d : Database)
      → CreatesOther value c
      → All (IsLimited value) d.tokens
      → room value (step ts c d).tokens + (if redeems value ts c d then 1 else 0)
        ≤ room value d.tokens
  unfolding step redeems
  step-room ts (create env id v payload m x) d o l =
      create_token-rows (λ rows. room value rows + 0 ≤ room value d.tokens) d (omega arith) ts env
        id v payload m x
        (ground (arith, room-append d.tokens (new_token ts env id v payload m x ∷ [])))
  step-room ts (consume env v) d o l = consumed-room ts env v d l
  step-room ts (revoke env id) d o l =
      revoke_token-rows (λ rows. room value rows + 0 ≤ room value d.tokens) d (omega arith) ts env
        id (omega (arith, room-cancel ts env id d.tokens))
  step-room ts (delete env id) d o l =
      unfold delete_token in omega (arith, room-delete_where (by_id env id) d.tokens)
  step-room ts (sweep_expired before limit) d o l =
      unfold delete_expired_tokens in
      omega (arith, room-delete_limit limit (λ (t : Token). ltb t.expires_at before) d.tokens)
  step-room ts (sweep_settled before limit) d o l =
      unfold delete_settled_tokens in
      omega (arith, room-delete_limit limit (settled before) d.tokens)

  step-IsLimited :
      (ts : ℕ) (c : TokenCall) (d : Database)
      → CreatesOther value c
      → All (IsLimited value) d.tokens
      → All (IsLimited value) (step ts c d).tokens
  step-IsLimited =
      step-All (IsLimited value) value (λ ts t h. unfold spend in h) (λ ts t h. h)
        (λ ts env id v p m x o e. cc (o, e))

  -- Over any calls, the accepted redemptions of a value are at most the uses that are left on its
  -- rows, provided those have a limit and no call issues the value anew.
  pub redemptions-le-room :
      (cs : List (ℕ × TokenCall)) (d : Database)
      → All (λ c. CreatesOther value c.1) cs
      → All (IsLimited value) d.tokens
      → redemptions value cs d ≤ room value d.tokens
  unfolding redemptions
  redemptions-le-room [] d o l = omega arith
  redemptions-le-room ((ts, c) ∷ cs) d o l = omega (
    arith,
    step-room ts c d o.0 l,
    redemptions-le-room cs (step ts c d) o.1 (step-IsLimited ts c d o.0 l),
  )

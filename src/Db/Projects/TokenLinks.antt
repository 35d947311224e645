-- ===== src/Db/Projects/TokenLinks.antt =====
-- Tokens keep their environments under every query on them.
use tokenzy.Prelude.{
  ℕ, ◌≡◌, true, not, Option, List, [], ◌∷◌, ◌++◌, arith, All, All-append, Bool-cases, Option-cases,
  inl, inr, ltb,
}
use tokenzy.Prelude.Str.{Str}
use tokenzy.Prelude.Table.{select_row, All-update_where, All-delete_where, All-delete_limit}
use tokenzy.Model.{Environment, Token, EventType}
use tokenzy.Token.Status.{Status, status_of}
use tokenzy.Db.{Database, emit_token_event}
use tokenzy.Db.Projects.Links.{has_parent, IsIntact}
use tokenzy.Db.Tokens.{
  token_clash, env_exists, new_token, create_token, redeemable, spend, consume_token,
  emit_if_exhausted, revocable, cancel, by_id, settled, revoke_token, delete_token,
  delete_expired_tokens, delete_settled_tokens,
}
use tokenzy.Db.Tokens.Trace.{
  TokenCall, create, consume, revoke, delete, sweep_expired, sweep_settled, step,
}

-- A parent more does no harm.
pub parent-append {ℓ κ} :
    {A : Type ℓ} {B : Type κ} (key : A → ℕ) (foreign : B → ℕ) (a : A) (parents : List A) (b : B)
    → has_parent key foreign parents b ≡ true
    → has_parent key foreign (parents ++ a ∷ []) b ≡ true
unfolding select_row
parent-append key foreign a [] b h = cc
parent-append key foreign a (p ∷ parents) b h =
    ground (arith, parent-append key foreign a parents b)

pub parent-new {ℓ κ} :
    {A : Type ℓ} {B : Type κ} (key : A → ℕ) (foreign : B → ℕ) (a : A) (parents : List A) (b : B)
    → key a ≡ foreign b
    → has_parent key foreign (parents ++ a ∷ []) b ≡ true
unfolding select_row
parent-new key foreign a [] b h = ground arith
parent-new key foreign a (p ∷ parents) b h = ground (arith, parent-new key foreign a parents b)

emit-IsIntact :
    (env : ℕ) (k : EventType) (t : Token) (d : Database)
    → IsIntact d
    → IsIntact (emit_token_event env k t d)
unfolding emit_token_event
emit-IsIntact env k t d h = elim (Bool-cases d.hooked) [
  | inl e ↦ rw (e, emit_token_event) h
  | inr e ↦ rw (e, emit_token_event) h
]

emit_if_exhausted-IsIntact :
    (ts env : ℕ) (t : Token) (d : Database) → IsIntact d → IsIntact (emit_if_exhausted ts env t d)
emit_if_exhausted-IsIntact ts env t d h =
    elim (status_of t ts)
      as (λ s. IsIntact (elim s as (λ _. Database) [
        | Status.exhausted ↦ emit_token_event env EventType.token_exhausted t d
        | _ ↦ d
      ])) [
        | Status.exhausted ↦ emit-IsIntact env EventType.token_exhausted t d h
        | Status.active ↦ h
        | Status.revoked ↦ h
        | Status.expired ↦ h
      ]

-- Tokens refer to environments.
module _ (d : Database) (intact : IsIntact d) where
  abbrev InEnv : Token → Type 0
  InEnv t =
      has_parent (λ (e : Environment). e.id) (λ (t : Token). t.environment_id) d.environments t
      ≡ true

  put_tokens : (rows : List Token) → All InEnv rows → IsIntact (record d { tokens = rows })
  put_tokens rows h = let (e, (k, t, o, w, x)) = intact in (e, (k, h, o, w, x))

  abbrev tokens_linked : All InEnv d.tokens
  tokens_linked = intact.1.1

  create_token-IsIntact :
      (ts env : ℕ) (id value payload : Str) (m : Option ℕ) (x : ℕ)
      → IsIntact (create_token ts env id value payload m x d).1
  unfolding create_token
  create_token-IsIntact ts env id value payload m x =
      elim (Bool-cases (token_clash id value d.tokens)) [
        | inl e ↦ rw (e, create_token) intact
        | inr e ↦ elim (Bool-cases (not (env_exists env d.environments))) [
          | inl f ↦ rw (e, create_token) (rw f intact)
          | inr f ↦
              rw (e, create_token)
                (rw f (
                  emit-IsIntact env EventType.token_created (new_token ts env id value payload m x)
                    _
                    (put_tokens _ (All-append InEnv d.tokens _ tokens_linked (ground arith, tt)))))
        ]
      ]

  consume_token-IsIntact : (ts env : ℕ) (value : Str) → IsIntact (consume_token ts env value d).1
  unfolding consume_token
  consume_token-IsIntact ts env value =
      elim (Option-cases (select_row (redeemable ts env value) d.tokens)) [
        | inl e ↦ rw (e, consume_token) intact
        | inr (row, e) ↦
            rw (e, consume_token)
              (emit_if_exhausted-IsIntact ts env _ _ (
                emit-IsIntact env EventType.token_consumed _ _ (
                  put_tokens _ (
                    All-update_where InEnv (redeemable ts env value) (spend ts) d.tokens
                      (λ t _ k. unfold spend in k) tokens_linked))))
      ]

  revoke_token-IsIntact : (ts env : ℕ) (id : Str) → IsIntact (revoke_token ts env id d).1
  unfolding revoke_token
  revoke_token-IsIntact ts env id = elim (Option-cases (select_row (revocable env id) d.tokens)) [
    | inl e ↦ rw (e, revoke_token) intact
    | inr (row, e) ↦
        rw (e, revoke_token)
          (emit-IsIntact env EventType.token_revoked _ _ (
            put_tokens _ (
              All-update_where InEnv (revocable env id) (cancel ts) d.tokens (λ t _ k. k)
                tokens_linked)))
  ]

  pub token_step-IsIntact : (ts : ℕ) (c : TokenCall) → IsIntact (step ts c d)
  unfolding step delete_token delete_expired_tokens delete_settled_tokens
  token_step-IsIntact ts (create env id value payload m x) =
      create_token-IsIntact ts env id value payload m x
  token_step-IsIntact ts (consume env value) = consume_token-IsIntact ts env value
  token_step-IsIntact ts (revoke env id) = revoke_token-IsIntact ts env id
  token_step-IsIntact ts (delete env id) =
      put_tokens _ (All-delete_where InEnv (by_id env id) d.tokens tokens_linked)
  token_step-IsIntact ts (sweep_expired before n) =
      put_tokens _ (All-delete_limit InEnv n (λ t. ltb t.expires_at before) d.tokens tokens_linked)
  token_step-IsIntact ts (sweep_settled before n) =
      put_tokens _ (All-delete_limit InEnv n (settled before) d.tokens tokens_linked)

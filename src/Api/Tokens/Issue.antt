-- ===== src/Api/Tokens/Issue.antt =====
-- A token that was issued over the API can be spent over the API.
use tokenzy.Prelude.{
  ℕ, ◌-◌, ◌/◌, ◌<◌, ◌≡◌, refl, ap, Bool, true, false, none, some, Option, List, [], ◌∷◌, ◌++◌,
  arith, is_nil,
}
use tokenzy.Prelude.Int.{ℤ}
use tokenzy.Prelude.Str.{Str, str_eq_refl}
use tokenzy.Prelude.Text.{trim_space}
use tokenzy.Prelude.Table.{select_row}
use tokenzy.Ttl.{second}
use tokenzy.Limits
use tokenzy.Limits.{Limits}
use tokenzy.Model.{Token, token_created, remaining}
use tokenzy.Token.Limits as TokenLimits
use tokenzy.Token.Limits.{Json, validate_payload, validate_max_uses, validate_ttl}
use tokenzy.Token.Generate.{generate, new_id}
use tokenzy.Db
use tokenzy.Db.{Database, Result, not_found, emit_token_event}
use tokenzy.Db.Tokens.{
  token_clash, env_exists, new_token, create_token, redeemable, spend, scan_token, consume_token,
}
use tokenzy.Db.Tokens.Writes.{tokens-emit_token_event}
use tokenzy.Api.{created, done}
use tokenzy.Api.Tokens.{
  CreateRequest, CreateResponse, Fresh, expiry, checked_uses, issue, create, consume, valid,
  usage_of,
}

clash-redeemable :
    (ts env : ℕ) (id value : Str) (rows : List Token)
    → token_clash id value rows ≡ false
    → select_row (redeemable ts env value) rows ≡ none
unfolding select_row redeemable
clash-redeemable ts env id value [] h = refl
clash-redeemable ts env id value (t ∷ rows) h =
    ground (arith, clash-redeemable ts env id value rows)

select_row-last :
    (p : Token → Bool) (rows : List Token) (t : Token)
    → select_row p rows ≡ none
    → p t ≡ true
    → select_row p (rows ++ t ∷ []) ≡ some t
unfolding select_row
select_row-last p [] t h e = rw e refl
select_row-last p (x ∷ rows) t h e = ground (arith, select_row-last p rows t)

inserted :
    (ts env : ℕ) (id value payload : Str) (m : Option ℕ) (x : ℕ) (d : Database)
    → token_clash id value d.tokens ≡ false
    → env_exists env d.environments ≡ true
    → create_token ts env id value payload m x d ≡ (
      Db.ok (new_token ts env id value payload m x),
      emit_token_event env token_created
          (new_token ts env id value payload m x)
          (record d { tokens = d.tokens ++ new_token ts env id value payload m x ∷ [] }),
    )
unfolding create_token
inserted ts env id value payload m x d h k = rw (h, create_token) (rw k refl)

redeemed :
    (ts env : ℕ) (value : Str) (d : Database) (t : Token)
    → select_row (redeemable ts env value) d.tokens ≡ some t
    → (consume_token ts env value d).0 ≡ Db.ok (scan_token (spend ts t))
unfolding consume_token
redeemed ts env value d t h = rw (h, consume_token) refl

new_token-redeemable :
    (now ts env : ℕ) (id value payload : Str) (m : Option ℕ) (x : ℕ)
    → now < x
    → (m ≡ some 0 → ⊥)
    → redeemable now env value (new_token ts env id value payload m x) ≡ true
unfolding redeemable
new_token-redeemable now ts env id value payload m x h k = ground (arith, str_eq_refl value)

uses_positive : (v : Option ℤ) → validate_max_uses v ≡ true → checked_uses v ≡ some 0 → ⊥
unfolding validate_max_uses
uses_positive v h k = ground arith

generated-nil : (a b : Option Str) (value : Str) → generate a b ≡ some value → is_nil value ≡ false
unfolding generate
generated-nil none b value h = absurd (cc)
generated-nil (some a) none value h = absurd (cc)
generated-nil (some a) (some b) value h = ground arith

abbrev response_of : Token → CreateResponse
response_of t = record {
  id = t.id;
  token = t.value;
  expires_at = t.expires_at;
  max_uses = t.max_uses;
}

created_with :
    (json : Json) (limits : Limits) (fresh : Fresh) (env : ℕ) (req : CreateRequest) (d : Database)
    (payload id value : Str) (ttl : ℤ)
    → validate_payload json req.payload ≡ TokenLimits.ok payload
    → validate_max_uses req.max_uses ≡ true
    → validate_ttl limits req.ttl_seconds ≡ Limits.ok ttl
    → new_id fresh.id_bytes ≡ some id
    → generate fresh.first_bytes fresh.second_bytes ≡ some value
    → token_clash id value d.tokens ≡ false
    → env_exists env d.environments ≡ true
    → let t =
        new_token
          (fresh.now / second)
          env
          id
          value
          payload
          (checked_uses req.max_uses)
          (expiry fresh.now ttl) in
      create json limits fresh env req d ≡ (
        created (response_of t),
        emit_token_event env token_created t (record d { tokens = d.tokens ++ t ∷ [] }),
      )
unfolding create issue
created_with json limits fresh env req d payload id value ttl hp hm ht hi hg hc he =
    let q =
      inserted (fresh.now / second) env id value payload (checked_uses req.max_uses)
        (expiry fresh.now ttl) d hc he in
    let t =
      new_token (fresh.now / second) env id value payload (checked_uses req.max_uses)
        (expiry fresh.now ttl) in
    rw (hp, create)
      (rw hm (rw ht (rw (hi, issue) (rw hg (rw q (ap (λ p. (created (response_of t), p.1)) q))))))

first_use :
    (now ts env : ℕ) (id value payload : Str) (m : Option ℕ) (x : ℕ)
    → (m ≡ some 0 → ⊥)
    → let t = scan_token (spend now (new_token ts env id value payload m x)) in
      valid t.payload_json (usage_of t)
      ≡ valid payload
          (record { used = 1; maximum = m; left = elim m [ none ↦ none | some n ↦ some (n - 1) ] })
unfolding scan_token spend remaining
first_use now ts env id value payload none x h = refl
first_use now ts env id value payload (some n) x h = ground arith

-- A request with a payload, a use limit and a lifetime that pass the checks, whose fresh id and
-- token clash with none, in an environment that exists, is answered with that token. Whoever sends
-- it to `consume` in that environment before it expires, with white space around it or not, gets
-- the payload, one use counted, and the limit less one as what remains.
pub consume-create :
    (json : Json) (limits : Limits) (fresh : Fresh) (now env : ℕ) (req : CreateRequest)
    (d : Database) (payload id value raw : Str) (ttl : ℤ)
    → validate_payload json req.payload ≡ TokenLimits.ok payload
    → validate_max_uses req.max_uses ≡ true
    → validate_ttl limits req.ttl_seconds ≡ Limits.ok ttl
    → new_id fresh.id_bytes ≡ some id
    → generate fresh.first_bytes fresh.second_bytes ≡ some value
    → token_clash id value d.tokens ≡ false
    → env_exists env d.environments ≡ true
    → trim_space raw ≡ value
    → now < expiry fresh.now ttl
    → let (answer, d') = create json limits fresh env req d in
      (answer
        ≡ created (record {
          id = id;
          token = value;
          expires_at = expiry fresh.now ttl;
          max_uses = checked_uses req.max_uses;
        }))
      × ((consume now env raw d').0
          ≡ done (
              valid payload (record {
                used = 1;
                maximum = checked_uses req.max_uses;
                left = elim (checked_uses req.max_uses) [ none ↦ none | some m ↦ some (m - 1) ];
              })))
unfolding consume
consume-create json limits fresh now env req d payload id value raw ttl hp hm ht hi hg hc he hr hx =
    let t =
      new_token (fresh.now / second) env id value payload (checked_uses req.max_uses)
        (expiry fresh.now ttl) in
    let d' = emit_token_event env token_created t (record d { tokens = d.tokens ++ t ∷ [] }) in
    let hit : select_row (redeemable now env value) d'.tokens ≡ some t =
      rw tokens-emit_token_event (
        select_row-last (redeemable now env value) d.tokens t
          (clash-redeemable now env id value d.tokens hc)
          (new_token-redeemable now (fresh.now / second) env id value payload
            (checked_uses req.max_uses) (expiry fresh.now ttl) hx
            (uses_positive req.max_uses hm))) in
    rw (created_with json limits fresh env req d payload id value ttl hp hm ht hi hg hc he) (
      refl,
      rw (hr, consume)
          (rw (generated-nil fresh.first_bytes fresh.second_bytes value hg) (
            rw (redeemed now env value d' t hit) (
              ap done (
                first_use now (fresh.now / second) env id value payload (checked_uses req.max_uses)
                  (expiry fresh.now ttl) (uses_positive req.max_uses hm))))),
    )

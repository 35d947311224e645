-- ===== src/Db/Tokens/Redeemed.antt =====
-- What a redemption does to the rows of one value, and to the voucher that they show.
use tokenzy.Prelude.{
  ℕ, ◌≡◌, refl, sym, ap, ◌∙◌, true, false, inl, inr, Option, none, some, [], ◌∷◌, arith, Bool-cases,
}
use tokenzy.Prelude.Str.{Str, str_eq, str_eq-eq, str_eq_refl}
use tokenzy.Prelude.Table.{select, select_row, update_where}
use tokenzy.Prelude.Table.Disjoint.{select-update_where}
use tokenzy.Prelude.Table.Views.{select-update, select_row-select}
use tokenzy.Model.{Token}
use tokenzy.Db.{Database, err, not_found}
use tokenzy.Db.Tokens.{redeemable, spend, consume_token}
use tokenzy.Db.Tokens.Writes.{consume_token-rows, tokens-emit_token_event, tokens-emit_if_exhausted}
use tokenzy.Db.Tokens.Trace.{consume, step, redeems, accepted}
use tokenzy.Db.Tokens.Voucher.{Voucher, promise, voucher_of}
use tokenzy.Db.Tokens.Shown.{
  has_value, IsShown, IsKept, seen, redeemable-good, voucher_of-spend, selected-has_value,
}

module _ (value : Str) where
  -- The rows of other values are not those of this one.
  other_value :
      (ts env : ℕ) (w : Str) (x : Token)
      → str_eq w value ≡ false
      → redeemable ts env w x ≡ true
      → has_value value x ≡ false
  unfolding redeemable
  other_value ts env w x e h = ground (arith, str_eq-eq x.value w)

  pub consume-other :
      (ts env : ℕ) (w : Str) (d : Database) (o : Option Voucher)
      → str_eq w value ≡ false
      → IsShown value ts o d.tokens
      → IsShown value ts o (consume_token ts env w d).1.tokens
  consume-other ts env w d o e s = consume_token-rows (IsShown value ts o) d s ts env w (λ row _.
      seen value ts o d.tokens _
        (select-update_where (has_value value) (redeemable ts env w) (spend ts) d.tokens
          (λ x k. (other_value ts env w x e k, unfold spend in other_value ts env w x e k)))
        s)

  tokens-consume_token :
      (ts env : ℕ) (w : Str) (row : Token) (d : Database)
      → select_row (redeemable ts env w) d.tokens ≡ some row
      → (consume_token ts env w d).1.tokens ≡ update_where (redeemable ts env w) (spend ts) d.tokens
  unfolding consume_token
  tokens-consume_token ts env w row d e =
      rw (e, consume_token) (rw tokens-emit_if_exhausted (tokens-emit_token_event _ _ _ _))

  consume_token-none :
      (ts env : ℕ) (w : Str) (d : Database)
      → select_row (redeemable ts env w) d.tokens ≡ none
      → consume_token ts env w d ≡ (err not_found, d)
  unfolding consume_token
  consume_token-none ts env w d e = rw (e, consume_token) refl

  pub consume-one :
      (ts env : ℕ) (t : Token) (d : Database)
      → select (has_value value) d.tokens ≡ t ∷ []
      → IsKept value ts (consume env value) d (some (voucher_of t))
  unfolding redeems promise step consume_token select_row update_where
  consume-one ts env t d h =
      let own = selected-has_value value d.tokens t h in
      let found =
        select_row-select (has_value value) (redeemable ts env value) d.tokens
          (λ x k. unfold redeemable in ground arith) in
      let same = redeemable-good ts env value t own in
      elim (Bool-cases (redeemable ts env value t)) [
        | inl e ↦
            let hit : select_row (redeemable ts env value) d.tokens ≡ some t =
              rw (found, h) (rw e refl) in
            rw str_eq_refl (
              rw (← same) (
                rw e (
                  rw (hit, consume_token)
                    (
                      refl,
                      inl (
                        spend ts t,
                        ap (select (has_value value)) (tokens-consume_token ts env value t d hit)
                            ∙ select-update (has_value value) (redeemable ts env value) (spend ts)
                                d.tokens (λ x. unfold spend in refl)
                            ∙ rw h (rw e refl),
                        ap some (sym (voucher_of-spend ts t)),
                      ),
                    ))))
        | inr e ↦
            let miss : select_row (redeemable ts env value) d.tokens ≡ none =
              rw (found, h) (rw e refl) in
            rw str_eq_refl (
              rw (← same) (
                rw e (
                  rw (consume_token-none ts env value d miss) (
                    refl,
                    inl (
                      t,
                      ap (λ r. select (has_value value) r.1.tokens)
                            (consume_token-none ts env value d miss)
                          ∙ h,
                      refl,
                    ),
                  ))))
      ]

  -- Without a row of the value no redemption of it is accepted.
  pub consume-none :
      (ts env : ℕ) (w : Str) (d : Database)
      → select (has_value value) d.tokens ≡ []
      → redeems value ts (consume env w) d ≡ false
  unfolding redeems select_row
  consume-none ts env w d h = elim (Bool-cases (str_eq w value)) [
    | inl e ↦
        let same = str_eq-eq w value e in
        let found =
          select_row-select (has_value value) (redeemable ts env w) d.tokens
            (λ x k. unfold redeemable in rw (← same) (ground arith)) in
        let miss : select_row (redeemable ts env w) d.tokens ≡ none = rw (found, h) refl in
        rw e (ap (λ r. accepted r.0) (consume_token-none ts env w d miss))
    | inr e ↦ rw e refl
  ]

  pub consumed_none :
      (ts env : ℕ) (w : Str) (d : Database)
      → select (has_value value) d.tokens ≡ []
      → select (has_value value) (consume_token ts env w d).1.tokens ≡ []
  consumed_none ts env w d h =
      consume_token-rows (λ rows. select (has_value value) rows ≡ []) d h ts env w
        (λ row _.
          select-update (has_value value) (redeemable ts env w) (spend ts) d.tokens
            (λ x. unfold spend in refl)
          ∙ unfold update_where in rw h refl)

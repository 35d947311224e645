-- ===== src/Db/Tokens/Refines.antt =====
-- The token store keeps the promise of the voucher, whatever the cleanup deletes in between.
use tokenzy.Prelude.{
  ℕ, ◌≤◌, ◌≡◌, ◌⊎◌, refl, sym, ap, ◌∙◌, subst, Bool, true, false, inl, inr, Option, none, some,
  List, [], ◌∷◌, arith, Bool-cases, All, if◌then◌else◌, ltb,
}
use tokenzy.Prelude.Str.{Str, str_eq, str_eq-eq}
use tokenzy.Prelude.Table.{select, update_where, delete_where}
use tokenzy.Prelude.Table.Views.{select-delete, select-delete_limit_none, select-delete_limit_one}
use tokenzy.Model.{Token}
use tokenzy.Db.{Database}
use tokenzy.Db.Tokens.{
  cancel, revocable, by_id, settled, delete_token, delete_expired_tokens, delete_settled_tokens,
}
use tokenzy.Db.Tokens.Rowwise.{CreatesOther}
use tokenzy.Db.Tokens.Trace.{
  TokenCall, create, consume, revoke, delete, sweep_expired, sweep_settled, step, redeems,
}
use tokenzy.Db.Tokens.Voucher.{
  Voucher, is_good, names, promise, promises, answers, voucher_of, IsPast, IsTimely,
}
use tokenzy.Db.Tokens.Shown.{
  has_value, IsOver, IsShown, IsKept, IsShown-later, revoked, voucher_of-cancel, created_other,
  created_none,
}
use tokenzy.Db.Tokens.Redeemed.{consume-other, consume-one, consume-none, consumed_none}

-- A row that a sweep may delete stands for a voucher that is over.
expired-is_good :
    (before ts : ℕ) (t : Token)
    → before ≤ ts
    → ltb t.expires_at before ≡ true
    → is_good ts (voucher_of t) ≡ false
unfolding is_good
expired-is_good before ts t h e = ground arith

settled-is_good :
    (before ts : ℕ) (t : Token) → settled before t ≡ true → is_good ts (voucher_of t) ≡ false
unfolding is_good settled
settled-is_good before ts t e = ground arith

module _ (value : Str) where
  swept :
      (ts : ℕ) (p : Token → Bool) (t : Token) (rows : List Token)
      → (p t ≡ true → is_good ts (voucher_of t) ≡ false)
      → (select (has_value value) rows ≡ t ∷ [])
        ⊎ ((p t ≡ true) × (select (has_value value) rows ≡ []))
      → IsShown value ts (some (voucher_of t)) rows
  swept ts p t rows h (inl e) = inl (t, e, refl)
  swept ts p t rows h (inr (k, e)) = inr (e, h k)

  kept_one :
      (ts : ℕ) (c : TokenCall) (t : Token) (d : Database)
      → CreatesOther value c
      → IsPast ts c
      → select (has_value value) d.tokens ≡ t ∷ []
      → IsKept value ts c d (some (voucher_of t))
  unfolding redeems promise step
  kept_one ts (create env id w payload m x) t d o b h =
      (refl, created_other value ts env id w payload m x d _ o (inl (t, h, refl)))
  kept_one ts (consume env w) t d o b h = elim (Bool-cases (str_eq w value)) [
    | inl e ↦
        subst (λ v. IsKept value ts (consume env v) d (some (voucher_of t)))
          (sym (str_eq-eq w value e)) (consume-one value ts env t d h)
    | inr e ↦ rw e (refl, consume-other value ts env w d _ e (inl (t, h, refl)))
  ]
  kept_one ts (revoke env id) t d o b h = (
    refl,
    inl (
      if revocable env id t then cancel ts t else t,
      revoked value ts env id d ∙ unfold update_where in rw h refl,
      ap some (sym (voucher_of-cancel value ts env id t)),
    ),
  )
  kept_one ts (delete env id) t d o b h =
      let left : select (has_value value) (step ts (delete env id) d).tokens
          ≡ (if by_id env id t then [] else t ∷ []) =
        unfold delete_token delete_where in
        select-delete (has_value value) (by_id env id) d.tokens ∙ rw h refl in
      elim (Bool-cases (by_id env id t)) [
        | inl e ↦ rw e (refl, inr (left ∙ rw e refl, tt))
        | inr e ↦ rw e (refl, inl (t, left ∙ rw e refl, refl))
      ]
  kept_one ts (sweep_expired before n) t d o b h = (
    refl,
    swept ts (λ x. ltb x.expires_at before) t _ (expired-is_good before ts t b)
        (unfold delete_expired_tokens in
          select-delete_limit_one (has_value value) _ n d.tokens t h),
  )
  kept_one ts (sweep_settled before n) t d o b h = (
    refl,
    swept ts (settled before) t _ (settled-is_good before ts t) (
        unfold delete_settled_tokens in select-delete_limit_one (has_value value) _ n d.tokens t h),
  )

  -- Once the voucher is over, nothing of it is used.
  promise-IsOver :
      (ts : ℕ) (c : TokenCall) (o : Option Voucher)
      → IsOver ts o
      → ((promise value ts c o).0 ≡ false) × IsOver ts (promise value ts c o).1
  unfolding promise is_good
  promise-IsOver ts c none k = (refl, tt)
  promise-IsOver ts (create env id w payload m x) (some v) k = (refl, k)
  promise-IsOver ts (consume env w) (some v) k = ground arith
  promise-IsOver ts (revoke env id) (some v) k = ground arith
  promise-IsOver ts (delete env id) (some v) k = elim (Bool-cases (names env id v)) [
    | inl e ↦ rw e (refl, tt)
    | inr e ↦ rw e (refl, k)
  ]
  promise-IsOver ts (sweep_expired before n) (some v) k = (refl, k)
  promise-IsOver ts (sweep_settled before n) (some v) k = (refl, k)

  -- A value without a row stays without one.
  unseen :
      (ts : ℕ) (c : TokenCall) (d : Database)
      → CreatesOther value c
      → select (has_value value) d.tokens ≡ []
      → (redeems value ts c d ≡ false) × (select (has_value value) (step ts c d).tokens ≡ [])
  unfolding redeems step
  unseen ts (create env id w payload m x) d o h =
      (refl, created_none value ts env id w payload m x d o h)
  unseen ts (consume env w) d o h =
      (consume-none value ts env w d h, consumed_none value ts env w d h)
  unseen ts (revoke env id) d o h =
      (refl, revoked value ts env id d ∙ unfold update_where in rw h refl)
  unseen ts (delete env id) d o h = (
    refl,
    unfold delete_token delete_where in
        select-delete (has_value value) (by_id env id) d.tokens ∙ rw h refl,
  )
  unseen ts (sweep_expired before n) d o h = (
    refl,
    unfold delete_expired_tokens in select-delete_limit_none (has_value value) _ n d.tokens h,
  )
  unseen ts (sweep_settled before n) d o h = (
    refl,
    unfold delete_settled_tokens in select-delete_limit_none (has_value value) _ n d.tokens h,
  )

  kept :
      (ts : ℕ) (c : TokenCall) (d : Database) (o : Option Voucher)
      → CreatesOther value c
      → IsPast ts c
      → IsShown value ts o d.tokens
      → IsKept value ts c d o
  kept ts c d o other past (inl (t, h, e)) =
      subst (IsKept value ts c d) (sym e) (kept_one ts c t d other past h)
  kept ts c d o other past (inr (h, k)) =
      let (silent, over) = promise-IsOver ts c o k in
      let (refused, gone) = unseen ts c d other h in (refused ∙ sym silent, inr (gone, over))

  answered :
      (now : ℕ) (cs : List (ℕ × TokenCall)) (d : Database) (o : Option Voucher)
      → All (λ c. CreatesOther value c.1) cs
      → IsTimely now cs
      → IsShown value now o d.tokens
      → answers value cs d ≡ promises value cs o
  answered now [] d o others timely s = refl
  answered now ((ts, c) ∷ cs) d o others (h, past, timely) s =
      let (answer, shown) =
        kept ts c d o others.0 past (IsShown-later value now ts o d.tokens h s) in
      let rest = answered ts cs (step ts c d) (promise value ts c o).1 others.1 timely shown in
      ap (λ b. b ∷ answers value cs (step ts c d)) answer ∙ ap (◌∷◌ (promise value ts c o).0) rest

  -- Where one row has the value, the store answers any calls as the voucher of that row promises: it
  -- accepts just the redemptions in the token's environment that find a use left, before the expiry
  -- and before the token is revoked or deleted. So the sweeps, whenever they run, are never noticed
  -- by who redeems. The clock does not run backwards, sweeps of expired tokens look at the past, and
  -- no call issues the value anew.
  pub answers-eq-promises :
      (now : ℕ) (cs : List (ℕ × TokenCall)) (d : Database) (t : Token)
      → select (has_value value) d.tokens ≡ t ∷ []
      → All (λ c. CreatesOther value c.1) cs
      → IsTimely now cs
      → answers value cs d ≡ promises value cs (some (voucher_of t))
  answers-eq-promises now cs d t h others timely =
      answered now cs d (some (voucher_of t)) others timely (inl (t, h, refl))

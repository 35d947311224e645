-- ===== src/Db/Tokens/Shown.antt =====
-- What the tokens table shows of a voucher, before and after each call.
use tokenzy.Prelude.{
  ℕ, ◌≤◌, ◌≡◌, ◌⊎◌, refl, sym, ap, ◌∙◌, Bool, true, false, inl, inr, ◌&&◌, Option, none, some, List,
  [], ◌∷◌, arith, Bool-cases, Option-cases, if◌then◌else◌, ◌==◌,
}
use mathlib.Core.List.{append-nil}
use tokenzy.Prelude.Str.{Str, str_eq}
use tokenzy.Prelude.Table.{select, select_row, update_where}
use tokenzy.Prelude.Table.Disjoint.{select-append}
use tokenzy.Prelude.Table.Views.{select-update, update_where-none}
use tokenzy.Model.{Token}
use tokenzy.Db.{Database}
use tokenzy.Db.Tokens.{redeemable, spend, cancel, revocable, new_token, create_token, revoke_token}
use tokenzy.Db.Tokens.Writes.{create_token-rows, tokens-emit_token_event}
use tokenzy.Db.Tokens.Trace.{TokenCall, step, redeems}
use tokenzy.Db.Tokens.Voucher.{Voucher, is_good, names, use_once, promise, voucher_of}

abbrev pub has_value : Str → Token → Bool
has_value value t = str_eq t.value value

-- Nothing is left of the voucher that could be used.
abbrev pub IsOver : ℕ → Option Voucher → Type 0
IsOver ts none = Unit
IsOver ts (some v) = is_good ts v ≡ false

-- The only row of the value stands for the voucher; or there is none, and the voucher is over.
abbrev pub IsShown : Str → ℕ → Option Voucher → List Token → Type 0
IsShown value ts o rows =
    ((t : Token) × (select (has_value value) rows ≡ t ∷ []) × (o ≡ some (voucher_of t)))
    ⊎ ((select (has_value value) rows ≡ []) × IsOver ts o)

IsOver-later : (now ts : ℕ) (o : Option Voucher) → now ≤ ts → IsOver now o → IsOver ts o
unfolding is_good
IsOver-later now ts none h k = tt
IsOver-later now ts (some v) h k = ground arith

pub IsShown-later :
    (value : Str) (now ts : ℕ) (o : Option Voucher) (rows : List Token)
    → now ≤ ts
    → IsShown value now o rows
    → IsShown value ts o rows
IsShown-later value now ts o rows h (inl k) = inl k
IsShown-later value now ts o rows h (inr (e, k)) = inr (e, IsOver-later now ts o h k)

-- What is seen of the table decides what is shown.
pub seen :
    (value : Str) (ts : ℕ) (o : Option Voucher) (rows rows' : List Token)
    → select (has_value value) rows' ≡ select (has_value value) rows
    → IsShown value ts o rows
    → IsShown value ts o rows'
seen value ts o rows rows' e (inl (t, h, k)) = inl (t, e ∙ h, k)
seen value ts o rows rows' e (inr (h, k)) = inr (e ∙ h, k)

pub redeemable-good :
    (ts env : ℕ) (value : Str) (t : Token)
    → has_value value t ≡ true
    → redeemable ts env value t ≡ (t.environment_id == env && is_good ts (voucher_of t))
unfolding redeemable is_good
redeemable-good ts env value t h = ground arith

pub voucher_of-spend : (ts : ℕ) (t : Token) → voucher_of (spend ts t) ≡ use_once (voucher_of t)
unfolding spend
voucher_of-spend ts t = ground arith

pub selected-has_value :
    (value : Str) (rows : List Token) (t : Token)
    → select (has_value value) rows ≡ t ∷ []
    → has_value value t ≡ true
unfolding select
selected-has_value value [] t h = cc
selected-has_value value (x ∷ rows) t h = elim (Bool-cases (has_value value x)) [
  | inl e ↦ let k : x ≡ t = ground arith in rw k at e
  | inr e ↦ selected-has_value value rows t (ground arith)
]

module _ (value : Str) where
  -- The answer is the one that is promised, and the table shows what is left of the voucher.
  abbrev pub IsKept : ℕ → TokenCall → Database → Option Voucher → Type 0
  IsKept ts c d o =
      (redeems value ts c d ≡ (promise value ts c o).0)
      × IsShown value ts (promise value ts c o).1 (step ts c d).tokens

  tokens-revoke_token :
      (ts env : ℕ) (id : Str) (d : Database)
      → (revoke_token ts env id d).1.tokens ≡ update_where (revocable env id) (cancel ts) d.tokens
  unfolding revoke_token
  tokens-revoke_token ts env id d = elim (Option-cases (select_row (revocable env id) d.tokens)) [
    | inl e ↦
        rw (e, revoke_token)
          (sym (update_where-none (has_value value) (revocable env id) (cancel ts) d.tokens e))
    | inr (row, e) ↦ rw (e, revoke_token) (tokens-emit_token_event _ _ _ _)
  ]

  pub revoked :
      (ts env : ℕ) (id : Str) (d : Database)
      → select (has_value value) (revoke_token ts env id d).1.tokens
        ≡ update_where (revocable env id) (cancel ts) (select (has_value value) d.tokens)
  revoked ts env id d =
      ap (select (has_value value)) (tokens-revoke_token ts env id d)
      ∙ select-update (has_value value) (revocable env id) (cancel ts) d.tokens (λ x. refl)

  pub voucher_of-cancel :
      (ts env : ℕ) (id : Str) (t : Token)
      → voucher_of (if revocable env id t then cancel ts t else t) ≡ (
          if names env id (voucher_of t)
          then record (voucher_of t) { cancelled = Bool.true }
          else voucher_of t)
  voucher_of-cancel ts env id t = ground arith

  pub created_other :
      (ts env : ℕ) (id w payload : Str) (m : Option ℕ) (x : ℕ) (d : Database) (o : Option Voucher)
      → str_eq w value ≡ false
      → IsShown value ts o d.tokens
      → IsShown value ts o (create_token ts env id w payload m x d).1.tokens
  unfolding select
  created_other ts env id w payload m x d o e s =
      create_token-rows (IsShown value ts o) d s ts env id w payload m x (
        seen value ts o d.tokens _
          (select-append (has_value value) d.tokens (new_token ts env id w payload m x ∷ [])
            ∙ rw e (append-nil (select (has_value value) d.tokens)))
          s)

  pub created_none :
      (ts env : ℕ) (id w payload : Str) (m : Option ℕ) (x : ℕ) (d : Database)
      → str_eq w value ≡ false
      → select (has_value value) d.tokens ≡ []
      → select (has_value value) (create_token ts env id w payload m x d).1.tokens ≡ []
  unfolding select
  created_none ts env id w payload m x d e h =
      create_token-rows (λ rows. select (has_value value) rows ≡ []) d h ts env id w payload m x
        (select-append (has_value value) d.tokens (new_token ts env id w payload m x ∷ [])
          ∙ rw (h, e) refl)

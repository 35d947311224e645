-- ===== src/Db/Tokens/Voucher.antt =====
-- What the token store promises of one token (internal/db/tokens.go), as a voucher: it is good for a
-- number of uses until a time or until it is cancelled, and the sweeps of the cleanup do not exist.
use tokenzy.Prelude.{
  ℕ, ◌-◌, ◌≤◌, Bool, true, false, not, ◌&&◌, Option, none, some, List, [], ◌∷◌, ltb, ◌==◌, is_some,
  if◌then◌else◌,
}
use tokenzy.Prelude.Str.{Str, str_eq}
use tokenzy.Model.{Token}
use tokenzy.Db.{Database}
use tokenzy.Db.Tokens.Trace.{TokenCall, consume, revoke, delete, sweep_expired, step, redeems}

pub record Voucher : Type 0 where
  pub id : Str
  pub env : ℕ
  -- `none` for any number
  pub uses : Option ℕ
  pub until : ℕ
  pub cancelled : Bool

unfoldable pub is_good : ℕ → Voucher → Bool
is_good ts v = not v.cancelled && (ltb ts v.until && elim v.uses [ none ↦ true | some n ↦ ltb 0 n ])

abbrev pub use_once : Voucher → Voucher
use_once v = record v { uses = elim v.uses [ none ↦ none | some n ↦ some (n - 1) ] }

abbrev pub names : ℕ → Str → Voucher → Bool
names env id v = str_eq v.id id && v.env == env

-- Whether a call is answered with a use of the voucher, and what is left of the voucher.
unfoldable pub promise : Str → ℕ → TokenCall → Option Voucher → Bool × Option Voucher
promise value ts c none = (false, none)
promise value ts (consume env w) (some v) =
    if str_eq w value && (v.env == env && is_good ts v)
    then (true, some (use_once v))
    else (false, some v)
promise value ts (revoke env id) (some v) =
    (false, some (if names env id v then record v { cancelled = true } else v))
promise value ts (delete env id) (some v) = (false, if names env id v then none else some v)
promise value ts _ (some v) = (false, some v)

abbrev pub promises : Str → List (ℕ × TokenCall) → Option Voucher → List Bool
promises value [] o = []
promises value ((ts, c) ∷ cs) o =
    (promise value ts c o).0 ∷ promises value cs (promise value ts c o).1

-- What the store answers: for each call, whether it is an accepted redemption of the value.
abbrev pub answers : Str → List (ℕ × TokenCall) → Database → List Bool
answers value [] d = []
answers value ((ts, c) ∷ cs) d = redeems value ts c d ∷ answers value cs (step ts c d)

-- The voucher that a row stands for.
abbrev pub voucher_of : Token → Voucher
voucher_of t = record {
  id = t.id;
  env = t.environment_id;
  uses = elim t.max_uses [ none ↦ none | some m ↦ some (m - t.used_count) ];
  until = t.expires_at;
  cancelled = is_some t.revoked_at;
}

-- A sweep of expired tokens looks at the past only.
abbrev pub IsPast : ℕ → TokenCall → Type 0
IsPast ts (sweep_expired before limit) = before ≤ ts
IsPast ts _ = Unit

-- The clock does not run backwards, and the sweeps look back.
abbrev pub IsTimely : ℕ → List (ℕ × TokenCall) → Type 0
IsTimely now [] = Unit
IsTimely now ((ts, c) ∷ cs) = (now ≤ ts) × IsPast ts c × IsTimely ts cs

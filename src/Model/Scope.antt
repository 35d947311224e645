-- ===== src/Model/Scope.antt =====
-- The scopes of API keys (internal/model/model.go): names, ranks and what a rank allows.
use tokenzy.Prelude.{ℕ, Bool, false, Option, none, some, is_some, leb, if◌then◌else◌}
use tokenzy.Prelude.Str.{Str, codes, str_eq}

abbrev pub scope_consume : Str
scope_consume = codes "consume"

abbrev pub scope_write : Str
scope_write = codes "write"

abbrev pub scope_admin : Str
scope_admin = codes "admin"

-- The map `scopeRank`; `none` for a missing key.
unfoldable pub scope_rank : Str → Option ℕ
unfolding str_eq
scope_rank s =
    if str_eq s scope_consume
    then some 1
    else if str_eq s scope_write
    then some 2
    else if str_eq s scope_admin
    then some 3
    else none

unfoldable pub valid_scope : Str → Bool
valid_scope s = is_some (scope_rank s)

unfoldable pub scope_allows : Str → Str → Bool
scope_allows have want = elim (scope_rank have) [
  | none ↦ false
  | some h ↦ elim (scope_rank want) [ none ↦ false | some w ↦ leb w h ]
]

-- ===== src/Model/Laws.antt =====
-- What the scope ranks promise: a preorder on the known scopes in which admin is on top.
use tokenzy.Prelude.{◌≡◌, true, arith}
use tokenzy.Prelude.Str.{Str}
use tokenzy.Model.{scope_admin, scope_consume, scope_rank, valid_scope, scope_allows}

-- A scope allows itself exactly when it is known, permission is transitive, and whatever a scope
-- allows is a known scope that admin allows too and that itself allows consume.
pub scope_allows-preorder :
    (a b c : Str)
    → scope_allows a b ≡ true
    → scope_allows b c ≡ true
    → (scope_allows a c ≡ true)
      × (scope_allows a a ≡ valid_scope a)
      × (scope_allows scope_admin b ≡ true)
      × (scope_allows b scope_consume ≡ true)
unfolding scope_allows valid_scope scope_rank
scope_allows-preorder a b c h k = ground arith

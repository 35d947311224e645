-- ===== src/Examples/Access.antt =====
-- Keys, sessions and deletions at concrete inputs.
use tokenzy.Prelude.{List, Bool, ◌≡◌, refl, some, none, [], ◌∷◌, ltb, ◌+◌, if◌then◌else◌}
use tokenzy.Prelude.Str.{Str, codes}
use tokenzy.Prelude.Text.{trim_space, strip, leading_space, trailing_space}
use tokenzy.Prelude.Table.{select_row}
use tokenzy.Token.Generate.{hex}
use tokenzy.Model.{ApiKey, User, scope_consume, scope_admin}
use tokenzy.Db.{Database, ok}
use tokenzy.Db.Keys.{new_key, revoke_api_key, delete_api_key}
use tokenzy.Db.Users.{delete_session}
use tokenzy.Db.Projects.Links.{IsIntact}
use tokenzy.Db.Projects.Integrity.{
  Write, on_tokens, new_project, new_webhook, new_delivery, drop_project, drop_environment,
  apply_all, apply_all-IsIntact,
}
use tokenzy.Db.Tokens.Trace.{create}
use tokenzy.Examples.Deliveries.{json}
use tokenzy.Auth.Keys.{require, invalid_key}
use tokenzy.Auth.Keys.Laws.{require-revoked}
use tokenzy.Auth.Sessions.{session_ttl, start, current, end}
use tokenzy.Auth.Sessions.Laws.{current-start}
use tokenzy.Examples.Tokens.{store}

abbrev hash_key : Str → Str
hash_key s = 35 ∷ s

abbrev key : ApiKey
key = new_key 5 7 1 (codes "#k") (codes "k") scope_admin []

abbrev keyed : Database
keyed = record store { api_keys = key ∷ [] }

require-revoked_example :
    (require hash_key scope_consume (codes "k ") (revoke_api_key 9 7 1 keyed).1 ≡ invalid_key)
    × (require hash_key scope_consume (codes "k ") (delete_api_key 7 1 keyed).1 ≡ invalid_key)
unfolding trim_space strip leading_space trailing_space
require-revoked_example =
    require-revoked hash_key 9 7 1 scope_consume (codes "k ") keyed refl ((λ _. refl), tt)

abbrev ada : User
ada = record { id = 3; username = codes "ada"; password_hash = []; created_at = 0 }

abbrev staffed : Database
staffed = record store { users = ada ∷ [] }

current-start_example :
    let (answer, d') = start 10 (some (0 ∷ 255 ∷ [])) 3 staffed in
    (answer ≡ ok (hex (0 ∷ 255 ∷ [])))
    × (current 20 (hex (0 ∷ 255 ∷ [])) d' ≡ (
        if ltb (10 + session_ttl) 20
        then (none, delete_session (hex (0 ∷ 255 ∷ [])) d')
        else (some ada, d')))
    × ((current 30 (hex (0 ∷ 255 ∷ [])) (delete_session (hex (0 ∷ 255 ∷ [])) d')).0 ≡ none)
    × ((current 30 (hex (0 ∷ 255 ∷ [])) (end (hex (0 ∷ 255 ∷ [])) d')).0 ≡ none)
unfolding hex select_row
current-start_example = current-start 10 20 30 3 (0 ∷ 255 ∷ []) ada staffed refl refl refl

abbrev small : Database
small = record store {
  projects = record { id = 1; slug = codes "shop"; name = codes "Shop"; created_at = 0 } ∷ [];
  tokens = [];
  api_keys = key ∷ [];
}

-- A project more, a token in it, a webhook with a delivery, and then the first project goes.
abbrev changes : List Write
changes =
    new_project 10 (codes "second") (codes "Second")
    ∷ on_tokens 20 (create 2 (codes "t9") (codes "tkn_z") (codes "{}") none 100)
    ∷ new_webhook json 30 2 (codes "https://example.org") (codes "whsec_1") [] [] [] Bool.false
    ∷ new_delivery 40 1 (codes "evt_1") (codes "token.created") (codes "{}")
    ∷ drop_project 1
    ∷ drop_environment 2
    ∷ []

apply_all-IsIntact_example : IsIntact (apply_all changes small)
unfolding select_row
apply_all-IsIntact_example =
    apply_all-IsIntact changes small ((refl, tt), ((refl, tt), tt, tt, tt, tt))

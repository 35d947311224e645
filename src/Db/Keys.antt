-- ===== src/Db/Keys.antt =====
-- internal/db/keys.go: API keys, stored by the hash of the key.
use tokenzy.Prelude.{
  ℕ, Bool, not, ◌&&◌, ◌||◌, none, some, List, [], ◌∷◌, ◌++◌, ltb, ◌==◌, is_some, is_none,
  if◌then◌else◌,
}
use tokenzy.Prelude.Str.{Str, str_eq}
use tokenzy.Prelude.Table.{
  select, select_row, count_where, update_where, delete_where, sort_by, next_rowid,
}
use tokenzy.Model.{Environment, ApiKey, valid_scope}
use tokenzy.Db.{Database, Result, ok, err, not_found, duplicate, failure}

abbrev pub new_key : ℕ → ℕ → ℕ → Str → Str → Str → Str → ApiKey
new_key ts id env hash prefix scope label = record {
  id = id;
  environment_id = env;
  key_hash = hash;
  key_prefix = prefix;
  scope = scope;
  label = label;
  created_at = ts;
  revoked_at = none;
}

-- The constraints: the CHECK on the scope, UNIQUE on the hash, and an environment that exists.
unfoldable pub create_api_key : ℕ → ℕ → Str → Str → Str → Str → Database → Result ApiKey × Database
create_api_key ts env hash prefix scope label d =
    if not (valid_scope scope)
    then (err failure, d)
    else if is_some (select_row (λ (k : ApiKey). str_eq k.key_hash hash) d.api_keys)
    then (err duplicate, d)
    else if is_none (select_row (λ (e : Environment). e.id == env) d.environments)
    then (err failure, d)
    else let k =
        new_key ts (next_rowid (λ (k : ApiKey). k.id) d.api_keys) env hash prefix scope label in
      (ok k, record d { api_keys = d.api_keys ++ k ∷ [] })

-- ORDER BY revoked_at IS NOT NULL ASC, created_at DESC, id DESC
abbrev pub key_first : ApiKey → ApiKey → Bool
key_first a b =
    (is_none a.revoked_at && is_some b.revoked_at)
    || ((if is_none a.revoked_at then is_none b.revoked_at else is_some b.revoked_at)
        && (ltb b.created_at a.created_at || (a.created_at == b.created_at && ltb b.id a.id)))

unfoldable pub list_api_keys : ℕ → Database → List ApiKey
list_api_keys env d =
    sort_by key_first (select (λ (k : ApiKey). k.environment_id == env) d.api_keys)

abbrev pub active_with : Str → ApiKey → Bool
active_with hash k = str_eq k.key_hash hash && is_none k.revoked_at

unfoldable pub lookup_active_api_key : Str → Database → Result ApiKey
lookup_active_api_key hash d = elim (select_row (active_with hash) d.api_keys) [
  | none ↦ err not_found
  | some k ↦ ok k
]

abbrev pub key_is : ℕ → ℕ → ApiKey → Bool
key_is id env k = k.id == id && k.environment_id == env

abbrev pub revocable : ℕ → ℕ → ApiKey → Bool
revocable id env k = key_is id env k && is_none k.revoked_at

unfoldable pub revoke_api_key : ℕ → ℕ → ℕ → Database → Result (Unit {0}) × Database
revoke_api_key ts id env d = (
  if count_where (revocable id env) d.api_keys == 0 then err not_found else ok tt,
  record d {
    api_keys =
        update_where (revocable id env) (λ (k : ApiKey). record k { revoked_at = some ts })
          d.api_keys;
  },
)

unfoldable pub delete_api_key : ℕ → ℕ → Database → Result (Unit {0}) × Database
delete_api_key id env d = (
  if count_where (key_is id env) d.api_keys == 0 then err not_found else ok tt,
  record d { api_keys = delete_where (key_is id env) d.api_keys },
)

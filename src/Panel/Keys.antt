-- ===== src/Panel/Keys.antt =====
-- internal/ui/keys.go: the page of an environment's API keys. SHA-256 and the random draws are
-- parameters, as in Auth/Keys.
use tokenzy.Prelude.{ℕ, not, Option, none, some, List, [], map, if◌then◌else◌, ◌∷◌}
use tokenzy.Prelude.Int.{pos, negsuc}
use tokenzy.Prelude.Str.{Str, codes}
use tokenzy.Prelude.Text.{trim_space}
use tokenzy.Prelude.Decimal.{parse_int64}
use tokenzy.Model.{ApiKey, valid_scope, scope_consume, scope_write, scope_admin}
use tokenzy.Auth.Keys.{generate_key, key_prefix}
use tokenzy.Db.{Database, ok, err}
use tokenzy.Db.Keys.{create_api_key, list_api_keys, revoke_api_key, delete_api_key}
use tokenzy.Panel.{
  Request, unix, Answer, page, fragment, bad_request, internal_error, Layout, layout_for, Scope,
  resolve_env, reading, writing, settled, format_time, titled,
}

pub record KeyRow : Type 0 where
  pub project : Str
  pub env : Str
  pub key : ApiKey
  pub created : Str
  pub revoked : Str

pub record KeysView : Type 0 where
  pub layout : Layout
  pub rows : List KeyRow
  pub scopes : List Str
  pub new_key : Str
  pub invalid_scope : Option Str

unfoldable pub key_row : (ℕ → Str) → Scope → ApiKey → KeyRow
key_row print scope k = record {
  project = scope.project.slug;
  env = scope.env.slug;
  key = k;
  created = format_time print k.created_at;
  revoked = elim k.revoked_at [ none ↦ [] | some at ↦ format_time print at ];
}

-- The error is the scope name that was refused.
unfoldable pub keys_view : (ℕ → Str) → Request → Scope → Str → Option Str → Database → KeysView
keys_view print r scope new_key error d = record {
  layout =
      layout_for r (titled (codes "API keys") scope.project) (some scope.project) (some scope.env)
        scope.envs (codes "keys");
  rows = map (key_row print scope) (list_api_keys scope.env.id d);
  scopes = scope_consume ∷ scope_write ∷ scope_admin ∷ [];
  new_key = new_key;
  invalid_scope = error;
}

-- `renderKeysPanel`
unfoldable pub render_keys_panel :
    (ℕ → Str) → Request → Scope → Str → Option Str → ℕ → Database → Answer KeysView
render_keys_panel print r scope new_key error code d =
    fragment code (codes "keys_panel") (keys_view print r scope new_key error d)

unfoldable pub keys_page : (ℕ → Str) → Request → Database → Answer KeysView
keys_page print r d =
    reading (resolve_env r d)
      λ scope. page 200 (codes "keys.html") (keys_view print r scope [] none d)

-- `createKey`, on the fields `scope` and `label`.
unfoldable pub create_key :
    (ℕ → Str)
    → (Str → Str)
    → Request
    → Str
    → Str
    → (ℕ → Option ℕ)
    → Database
    → Answer KeysView × Database
create_key print hash_key r raw_scope raw_label draw d = writing (resolve_env r d) d λ scope.
    let name = trim_space raw_scope in
    if not (valid_scope name)
    then (render_keys_panel print r scope [] (some name) 422 d, d)
    else elim (generate_key name scope.env.slug draw) [
      | none ↦ (internal_error, d)
      | some key ↦
          let (res, d') =
            create_api_key (unix r) scope.env.id (hash_key key) (key_prefix key) name
              (trim_space raw_label) d in
          elim res [
            | err e ↦ (internal_error, d')
            | ok k ↦ (render_keys_panel print r scope key none 200 d', d')
          ]
    ]

-- A negative id is the id of no row.
unfoldable pub revoke_key : (ℕ → Str) → Request → Database → Answer KeysView × Database
revoke_key print r d = writing (resolve_env r d) d λ scope. elim (parse_int64 r.id) [
  | none ↦ (bad_request, d)
  | some (negsuc n) ↦ (render_keys_panel print r scope [] none 200 d, d)
  | some (pos id) ↦
      let (res, d') = revoke_api_key (unix r) id scope.env.id d in
      settled res (render_keys_panel print r scope [] none 200 d') d'
]

unfoldable pub delete_key : (ℕ → Str) → Request → Database → Answer KeysView × Database
delete_key print r d = writing (resolve_env r d) d λ scope. elim (parse_int64 r.id) [
  | none ↦ (bad_request, d)
  | some (negsuc n) ↦ (render_keys_panel print r scope [] none 200 d, d)
  | some (pos id) ↦
      let (res, d') = delete_api_key id scope.env.id d in
      settled res (render_keys_panel print r scope [] none 200 d') d'
]

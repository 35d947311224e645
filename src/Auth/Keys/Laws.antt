-- ===== src/Auth/Keys/Laws.antt =====
-- A key that was revoked or deleted opens nothing.
use tokenzy.Prelude.{ℕ, ◌≡◌, refl, true, false, none, some, List, [], ◌∷◌, arith, is_nil, All}
use tokenzy.Prelude.Str.{Str, str_eq}
use tokenzy.Prelude.Text.{trim_space}
use tokenzy.Prelude.Table.{select_row, update_where, delete_where}
use tokenzy.Model.{ApiKey}
use tokenzy.Db.{Database}
use tokenzy.Db.Keys.{
  key_is, active_with, revocable, lookup_active_api_key, revoke_api_key, delete_api_key,
}
use tokenzy.Auth.Keys.{require, invalid_key}

-- The only key with the hash is that of the id and environment.
abbrev pub IsOwn : ℕ → ℕ → Str → ApiKey → Type 0
IsOwn id env hash k = str_eq k.key_hash hash ≡ true → key_is id env k ≡ true

revoked_unfound :
    (ts id env : ℕ) (hash : Str) (keys : List ApiKey)
    → All (IsOwn id env hash) keys
    → select_row
        (active_with hash)
        (update_where (revocable id env) (λ (k : ApiKey). record k { revoked_at = some ts }) keys)
      ≡ none
unfolding select_row update_where
revoked_unfound ts id env hash [] h = refl
revoked_unfound ts id env hash (k ∷ keys) h =
    ground (arith, h.0, revoked_unfound ts id env hash keys h.1)

deleted_unfound :
    (id env : ℕ) (hash : Str) (keys : List ApiKey)
    → All (IsOwn id env hash) keys
    → select_row (active_with hash) (delete_where (key_is id env) keys) ≡ none
unfolding select_row delete_where
deleted_unfound id env hash [] h = refl
deleted_unfound id env hash (k ∷ keys) h = ground (arith, h.0, deleted_unfound id env hash keys h.1)

unfound-require :
    (hash_key : Str → Str) (scope header : Str) (d : Database)
    → is_nil (trim_space header) ≡ false
    → select_row (active_with (hash_key (trim_space header))) d.api_keys ≡ none
    → require hash_key scope header d ≡ invalid_key
unfolding require lookup_active_api_key
unfound-require hash_key scope header d h e = rw (h, require) (rw (e, lookup_active_api_key) refl)

-- Where hashes are unique, a request with a key is refused as soon as that key was revoked or
-- deleted, whatever scope it had and whichever it asks for.
pub require-revoked :
    (hash_key : Str → Str) (ts id env : ℕ) (scope header : Str) (d : Database)
    → is_nil (trim_space header) ≡ false
    → All (IsOwn id env (hash_key (trim_space header))) d.api_keys
    → (require hash_key scope header (revoke_api_key ts id env d).1 ≡ invalid_key)
      × (require hash_key scope header (delete_api_key id env d).1 ≡ invalid_key)
unfolding revoke_api_key delete_api_key
require-revoked hash_key ts id env scope header d h o = (
  unfound-require hash_key scope header _ h
      (revoked_unfound ts id env (hash_key (trim_space header)) d.api_keys o),
  unfound-require hash_key scope header _ h
      (deleted_unfound id env (hash_key (trim_space header)) d.api_keys o),
)

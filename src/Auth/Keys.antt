-- ===== src/Auth/Keys.antt =====
-- internal/auth/apikey.go: how a key is made, and what a request's key entitles it to. SHA-256 is a
-- parameter; so are the random draws, `none` where the generator fails.
pub mod Laws
use tokenzy.Prelude.{
  ℕ, zero, suc, Bool, not, Option, none, some, [], ◌∷◌, ◌++◌, is_nil, get_elem?, if◌then◌else◌,
}
use tokenzy.Prelude.Str.{Str, codes}
use tokenzy.Prelude.Text.{trim_space, clip}
use tokenzy.Model.{ApiKey, Environment, scope_allows}
use tokenzy.Db.{Database, ok, err, not_found, duplicate, failure}
use tokenzy.Db.Keys.{lookup_active_api_key}
use tokenzy.Db.Projects.{get_environment_by_id}

abbrev pub key_prefix_len : ℕ
key_prefix_len = 12

abbrev pub key_random_len : ℕ
key_random_len = 24

abbrev pub key_alphabet : Str
key_alphabet = codes "abcdefghijklmnopqrstuvwxyz0123456789"

-- The loop of `randomString`; the i-th draw is an index below the length of the alphabet, and one
-- outside would be a panic.
unfoldable pub random_string : ℕ → ℕ → (ℕ → Option ℕ) → Option Str
random_string zero i draw = some []
random_string (suc n) i draw = elim (draw i) [
  | none ↦ none
  | some index ↦ elim (get_elem? key_alphabet index) [
    | none ↦ none
    | some c ↦ elim (random_string n (suc i) draw) [ none ↦ none | some s ↦ some (c ∷ s) ]
  ]
]

unfoldable pub generate_key : Str → Str → (ℕ → Option ℕ) → Option Str
generate_key scope slug draw = elim (random_string key_random_len 0 draw) [
  | none ↦ none
  | some suffix ↦ some (codes "tk_" ++ scope ++ codes "_" ++ slug ++ codes "_" ++ suffix)
]

unfoldable pub key_prefix : Str → Str
key_prefix = clip key_prefix_len

-- What `Require` answers, or the context that it hands on.
pub data Verdict : Type 0 where
  missing_header invalid_key internal : Verdict
  forbidden : Str → Str → Verdict
  granted : ApiKey → Environment → Verdict

unfoldable pub check_environment : ApiKey → Database → Verdict
check_environment k d = elim (get_environment_by_id k.environment_id d) [
  | ok e ↦ granted k e
  | err not_found ↦ invalid_key
  | err _ ↦ internal
]

-- `Require`, for the header's value, empty where there is none.
unfoldable pub require : (Str → Str) → Str → Str → Database → Verdict
require hash_key scope header d =
    if is_nil (trim_space header)
    then missing_header
    else elim (lookup_active_api_key (hash_key (trim_space header)) d) [
      | err not_found ↦ invalid_key
      | err _ ↦ internal
      | ok k ↦
          if not (scope_allows k.scope scope)
          then forbidden k.scope scope
          else check_environment k d
    ]

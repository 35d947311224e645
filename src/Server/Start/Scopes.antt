-- ===== src/Server/Start/Scopes.antt =====
-- Which keys the routes let in.
use tokenzy.Prelude.{
  ℕ, ◌≡◌, refl, Bool, true, false, not, some, List, [], ◌∷◌, arith, is_none, ◌||◌, Bool-cases, sym,
  ap, ◌∙◌, inl, inr, IsIn,
}
use tokenzy.Prelude.Str.{Str, str_eq, str_eq-eq}
use tokenzy.Prelude.Text.{trim_space}
use tokenzy.Prelude.Table.{select_row}
use tokenzy.Model.{ApiKey, Environment, scope_consume, scope_write, scope_allows, scope_rank}
use tokenzy.Auth.Keys.{granted, check_environment, require}
use tokenzy.Db.{Database, ok}
use tokenzy.Db.Keys.{active_with, lookup_active_api_key}
use tokenzy.Db.Projects.{is_environment, get_environment_by_id}
use tokenzy.Server.Start.{
  Route, consume_token, create_token, validate_otp, generate_otp, required_scope, authorise,
}

-- A row that a query finds satisfies its condition.
select_row-holds {ℓ} :
    {A : Type ℓ} (p : A → Bool) (xs : List A) (x : A) → select_row p xs ≡ some x → p x ≡ true
unfolding select_row
select_row-holds p [] x h = absurd (cc)
select_row-holds p (y ∷ xs) x h = ground (arith, select_row-holds p xs x)

select_row-IsIn {ℓ} :
    {A : Type ℓ} (p : A → Bool) (xs : List A) (x : A) → select_row p xs ≡ some x → IsIn x xs
unfolding select_row
select_row-IsIn p [] x h = absurd (cc)
select_row-IsIn p (y ∷ xs) x h = elim (Bool-cases (p y)) [
  | inl e ↦ let same : y ≡ x = ground arith in ([], xs, ap (λ z. z ∷ xs) same)
  | inr e ↦
      let (before, after, split) = select_row-IsIn p xs x (ground arith) in
      (y ∷ before, after, ap (◌∷◌ y) split)
]

require-granted :
    (hash_key : Str → Str) (scope header : Str) (d : Database) (k : ApiKey) (e : Environment)
    → require hash_key scope header d ≡ granted k e
    → (lookup_active_api_key (hash_key (trim_space header)) d ≡ ok k)
      × (scope_allows k.scope scope ≡ true)
      × (get_environment_by_id k.environment_id d ≡ ok e)
unfolding require check_environment
require-granted hash_key scope header d k e h = ground arith

-- The routes that a key with the scope `consume` and one with the scope `write` reach.
abbrev pub for_consumers : Route → Bool
for_consumers consume_token = true
for_consumers validate_otp = true
for_consumers _ = false

abbrev pub for_writers : Route → Bool
for_writers create_token = true
for_writers generate_otp = true
for_writers consume_token = true
for_writers validate_otp = true
for_writers _ = false

consumers-exact : (r : Route) → scope_allows scope_consume (required_scope r) ≡ for_consumers r
unfolding scope_allows scope_rank str_eq
consumers-exact consume_token = refl
consumers-exact _ = refl

writers-exact : (r : Route) → scope_allows scope_write (required_scope r) ≡ for_writers r
unfolding scope_allows scope_rank str_eq
writers-exact consume_token = refl
writers-exact _ = refl

-- A key of the scope s, once let in, is either not of the scope t or t allows as much.
allows-only :
    (s t required : Str) (b : Bool)
    → scope_allows t required ≡ b
    → scope_allows s required ≡ true
    → (not (str_eq s t) || b) ≡ true
allows-only s t required b h k = elim (Bool-cases (str_eq s t)) [
  | inl same ↦
      let e : b ≡ true =
        sym h ∙ ap (λ (u : Str). scope_allows u required) (sym (str_eq-eq s t same)) ∙ k in
      rw same e
  | inr other ↦ rw other refl
]

lookup-active :
    (hash : Str) (d : Database) (k : ApiKey)
    → lookup_active_api_key hash d ≡ ok k
    → active_with hash k ≡ true
unfolding lookup_active_api_key
lookup-active hash d k h = ground (arith, select_row-holds (active_with hash) d.api_keys k)

lookup-IsIn :
    (hash : Str) (d : Database) (k : ApiKey)
    → lookup_active_api_key hash d ≡ ok k
    → IsIn k d.api_keys
unfolding lookup_active_api_key
lookup-IsIn hash d k h =
    let row : select_row (active_with hash) d.api_keys ≡ some k = ground arith in
    select_row-IsIn (active_with hash) d.api_keys k row

environment-IsIn :
    (id : ℕ) (d : Database) (e : Environment)
    → get_environment_by_id id d ≡ ok e
    → IsIn e d.environments
unfolding get_environment_by_id
environment-IsIn id d e h =
    let row : select_row (is_environment id) d.environments ≡ some e = ground arith in
    select_row-IsIn (is_environment id) d.environments e row

environment-id :
    (id : ℕ) (d : Database) (e : Environment) → get_environment_by_id id d ≡ ok e → e.id ≡ id
unfolding get_environment_by_id
environment-id id d e h = ground (arith, select_row-holds (is_environment id) d.environments e)

active-split :
    (hash : Str) (k : ApiKey)
    → active_with hash k ≡ true
    → (str_eq k.key_hash hash ≡ true) × (is_none k.revoked_at ≡ true)
active-split hash k h = (ground arith, ground arith)

-- Whoever a route lets in has presented a key that is in the table, under its hash, with the scope
-- that it is let in with, and is not revoked; acts in that key's environment, which is in its table;
-- and has a scope that allows what the route requires. So a stored key with the scope `consume`
-- reaches no route but consuming a token and validating a code, and one with the scope `write` none
-- but these and the two that issue.
pub authorise-granted :
    (hash_key : Str → Str) (route : Route) (header : Str) (d : Database) (k : ApiKey)
    (e : Environment)
    → authorise hash_key route header d ≡ granted k e
    → IsIn k d.api_keys
      × IsIn e d.environments
      × (k.key_hash ≡ hash_key (trim_space header))
      × (is_none k.revoked_at ≡ true)
      × (e.id ≡ k.environment_id)
      × (scope_allows k.scope (required_scope route) ≡ true)
      × ((not (str_eq k.scope scope_consume) || for_consumers route) ≡ true)
      × ((not (str_eq k.scope scope_write) || for_writers route) ≡ true)
unfolding authorise
authorise-granted hash_key route header d k e h =
    let (found, allowed, located) =
      require-granted hash_key (required_scope route) header d k e h in
    let (hash, live) = active-split _ k (lookup-active _ d k found) in
    (
      lookup-IsIn _ d k found,
      environment-IsIn k.environment_id d e located,
      str_eq-eq k.key_hash (hash_key (trim_space header)) hash,
      live,
      environment-id k.environment_id d e located,
      allowed,
      allows-only k.scope scope_consume (required_scope route) (for_consumers route)
          (consumers-exact route) allowed,
      allows-only k.scope scope_write (required_scope route) (for_writers route)
          (writers-exact route) allowed,
    )

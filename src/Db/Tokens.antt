-- ===== src/Db/Tokens.antt =====
-- internal/db/tokens.go: one function for each query, on the table and the clock.
pub mod StatusFilter
pub mod Consume
pub mod Writes
pub mod Trace
pub mod Voucher
pub mod Shown
pub mod Redeemed
pub mod Refines
pub mod Rowwise
pub mod Budget
pub mod Isolation
pub mod Sweep
pub mod Revocation
use tokenzy.Prelude.{
  ℕ, ◌+◌, Bool, true, false, not, ◌&&◌, ◌||◌, Option, none, some, List, [], ◌∷◌, ◌++◌, map, ltb,
  leb, min, ◌==◌, is_some, is_none, if◌then◌else◌,
}
use tokenzy.Prelude.Int.{ℤ}
use tokenzy.Prelude.Str.{Str, str_eq}
use tokenzy.Prelude.Table.{select_row, count_where, update_where, delete_where, delete_limit}
use tokenzy.Model.{
  Environment, Token, EventType, token_created, token_consumed, token_exhausted, token_revoked,
}
use tokenzy.Token.Status.{Status, status_of, spent}
use tokenzy.Token.Generate.{prefix}
use tokenzy.Db.Listing.{Position, Cursor, page}
use tokenzy.Db.{Database, Result, ok, err, not_found, duplicate, failure, emit_token_event}

-- `tokenColumns` leaves the plaintext out.
unfoldable pub scan_token : Token → Token
scan_token t = record t { value = [] }

abbrev pub env_exists : ℕ → List Environment → Bool
env_exists env es = is_some (select_row (λ (e : Environment). e.id == env) es)

-- `id` is the primary key and `token` is UNIQUE.
abbrev pub token_clash : Str → Str → List Token → Bool
token_clash id value ts =
    is_some (select_row (λ (t : Token). str_eq t.id id || str_eq t.value value) ts)

abbrev pub new_token : ℕ → ℕ → Str → Str → Str → Option ℕ → ℕ → Token
new_token ts env id value payload max_uses expires_at = record {
  id = id;
  environment_id = env;
  value = value;
  prefix = prefix value;
  payload_json = payload;
  max_uses = max_uses;
  used_count = 0;
  expires_at = expires_at;
  revoked_at = none;
  created_at = ts;
  last_used_at = none;
}

unfoldable pub create_token :
    ℕ → ℕ → Str → Str → Str → Option ℕ → ℕ → Database → Result Token × Database
create_token ts env id value payload max_uses expires_at d =
    if token_clash id value d.tokens
    then (err duplicate, d)
    else if not (env_exists env d.environments)
    then (err failure, d)
    else let t = new_token ts env id value payload max_uses expires_at in
      (ok t, emit_token_event env token_created t (record d { tokens = d.tokens ++ t ∷ [] }))

-- The WHERE clause of the consuming UPDATE.
unfoldable pub redeemable : ℕ → ℕ → Str → Token → Bool
redeemable ts env value t =
    str_eq t.value value
    && (t.environment_id == env && (is_none t.revoked_at && (ltb ts t.expires_at && not (spent t))))

-- Its SET clause.
unfoldable pub spend : ℕ → Token → Token
spend ts t = record t { used_count = t.used_count + 1; last_used_at = some ts }

abbrev pub emit_if_exhausted : ℕ → ℕ → Token → Database → Database
emit_if_exhausted ts env t d = elim (status_of t ts) [
  | Status.exhausted ↦ emit_token_event env token_exhausted t d
  | _ ↦ d
]

unfoldable pub consume_token : ℕ → ℕ → Str → Database → Result Token × Database
consume_token ts env value d = elim (select_row (redeemable ts env value) d.tokens) [
  | none ↦ (err not_found, d)
  | some row ↦
      let t = scan_token (spend ts row) in
      let d' = record d { tokens = update_where (redeemable ts env value) (spend ts) d.tokens } in
      (ok t, emit_if_exhausted ts env t (emit_token_event env token_consumed t d'))
]

abbrev pub by_id : ℕ → Str → Token → Bool
by_id env id t = str_eq t.id id && t.environment_id == env

unfoldable pub get_token : ℕ → Str → Database → Result Token
get_token env id d = elim (select_row (by_id env id) d.tokens) [
  | none ↦ err not_found
  | some t ↦ ok (scan_token t)
]

unfoldable pub get_token_value : ℕ → Str → Database → Result Str
get_token_value env id d = elim (select_row (by_id env id) d.tokens) [
  | none ↦ err not_found
  | some t ↦ ok t.value
]

-- `statusPredicate`; no status selects every row.
unfoldable pub status_predicate : Option Status → ℕ → Token → Bool
status_predicate (some Status.revoked) ts t = is_some t.revoked_at
status_predicate (some Status.expired) ts t = is_none t.revoked_at && leb t.expires_at ts
status_predicate (some Status.exhausted) ts t =
    is_none t.revoked_at && (ltb ts t.expires_at && spent t)
status_predicate (some Status.active) ts t =
    is_none t.revoked_at && (ltb ts t.expires_at && not (spent t))
status_predicate none ts t = true

abbrev pub position : Token → Position
position t = record { created = t.created_at; id = t.id }

abbrev pub listed : ℕ → ℕ → Option Status → Token → Bool
listed ts env status t = t.environment_id == env && status_predicate status ts t

unfoldable pub list_tokens : ℕ → ℕ → Option Status → ℤ → Cursor → Database → List Token × Cursor
list_tokens ts env status limit cursor d =
    let (rows, next) = page position (listed ts env status) limit cursor d.tokens in
    (map scan_token rows, next)

unfoldable pub count_tokens_by_status : ℕ → ℕ → Database → Status → ℕ
count_tokens_by_status ts env d s =
    count_where (λ (t : Token). t.environment_id == env && status_predicate (some s) ts t) d.tokens

abbrev pub cancel : ℕ → Token → Token
cancel ts t = record t { revoked_at = some ts }

abbrev pub revocable : ℕ → Str → Token → Bool
revocable env id t = by_id env id t && is_none t.revoked_at

unfoldable pub revoke_token : ℕ → ℕ → Str → Database → Result Token × Database
revoke_token ts env id d = elim (select_row (revocable env id) d.tokens) [
  | none ↦ (err not_found, d)
  | some row ↦
      let t = scan_token (cancel ts row) in
      let d' = record d { tokens = update_where (revocable env id) (cancel ts) d.tokens } in
      (ok t, emit_token_event env token_revoked t d')
]

unfoldable pub delete_token : ℕ → Str → Database → Result (Unit {0}) × Database
delete_token env id d =
    let d' = record d { tokens = delete_where (by_id env id) d.tokens } in
    (if count_where (by_id env id) d.tokens == 0 then err not_found else ok tt, d')

unfoldable pub delete_expired_tokens : ℕ → ℕ → Database → ℕ × Database
delete_expired_tokens before limit d =
    let p = λ (t : Token). ltb t.expires_at before in
    (min limit (count_where p d.tokens), record d { tokens = delete_limit limit p d.tokens })

-- `COALESCE(last_used_at, created_at)`
abbrev pub last_event : Token → ℕ
last_event t = elim t.last_used_at [ none ↦ t.created_at | some at ↦ at ]

unfoldable pub settled : ℕ → Token → Bool
settled before t =
    elim t.revoked_at [ none ↦ false | some at ↦ ltb at before ]
    || (spent t && ltb (last_event t) before)

unfoldable pub delete_settled_tokens : ℕ → ℕ → Database → ℕ × Database
delete_settled_tokens before limit d = (
  min limit (count_where (settled before) d.tokens),
  record d { tokens = delete_limit limit (settled before) d.tokens },
)

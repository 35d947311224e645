-- ===== src/Api/Tokens.antt =====
-- internal/api/tokens.go, consume.go and manage.go.
pub mod Issue
use tokenzy.Prelude.{
  ℕ, ◌+◌, ◌/◌, Bool, true, false, not, Option, none, some, List, map, is_nil, if◌then◌else◌,
}
use tokenzy.Prelude.Int.{ℤ, pos, negsuc, pos_part, ltb_ℤ}
use tokenzy.Prelude.Str.{Str}
use tokenzy.Prelude.Text.{trim_space}
use tokenzy.Prelude.Decimal.{parse_int64}
use tokenzy.Ttl.{second}
use tokenzy.Limits
use tokenzy.Limits.{Limits}
use tokenzy.Model.{Token, remaining}
use tokenzy.Token.Status.{Status, status_of, find_status, statuses}
use tokenzy.Token.Limits as TokenLimits
use tokenzy.Token.Limits.{Json, validate_payload, validate_max_uses, validate_ttl}
use tokenzy.Token.Generate.{generate, new_id}
use tokenzy.Db
use tokenzy.Db.{Database, not_found}
use tokenzy.Db.Listing.{Cursor, parse_cursor, cursor_string}
use tokenzy.Db.Tokens.{
  create_token, consume_token, get_token, get_token_value, list_tokens, revoke_token, delete_token,
}
use tokenzy.Api.{Reply, created, done, no_content, invalid_request, unknown, internal_error}

pub record CreateRequest : Type 0 where
  pub payload : Str
  pub max_uses : Option ℤ
  pub ttl_seconds : ℤ

pub record CreateResponse : Type 0 where
  pub id : Str
  pub token : Str
  pub expires_at : ℕ
  pub max_uses : Option ℕ

-- What comes from outside in one request: the time in nanoseconds and the random bytes.
pub record Fresh : Type 0 where
  pub now : ℕ
  pub id_bytes : Option Str
  pub first_bytes : Option Str
  pub second_bytes : Option Str

-- `time.Now().Add(ttl).Unix()`
abbrev pub expiry : ℕ → ℤ → ℕ
expiry now ttl = (now + pos_part ttl) / second

-- A checked limit is at least 1.
abbrev pub checked_uses : Option ℤ → Option ℕ
checked_uses none = none
checked_uses (some v) = some (pos_part v)

-- `create`, once the three checks have passed: the draws and the INSERT.
unfoldable pub issue : Fresh → ℕ → Str → Option ℕ → ℤ → Database → Reply CreateResponse × Database
issue fresh env payload max_uses ttl d = elim (new_id fresh.id_bytes) [
  | none ↦ (internal_error, d)
  | some id ↦ elim (generate fresh.first_bytes fresh.second_bytes) [
    | none ↦ (internal_error, d)
    | some value ↦
        let (r, d') =
          create_token (fresh.now / second) env id value payload max_uses (expiry fresh.now ttl)
            d in
        elim r [
          | Db.err e ↦ (internal_error, d')
          | Db.ok t ↦ (
            created (record {
              id = t.id;
              token = t.value;
              expires_at = t.expires_at;
              max_uses = t.max_uses;
            }),
            d',
          )
        ]
  ]
]

unfoldable pub create :
    Json → Limits → Fresh → ℕ → CreateRequest → Database → Reply CreateResponse × Database
create json limits fresh env req d = elim (validate_payload json req.payload) [
  | TokenLimits.ok payload ↦
      if not (validate_max_uses req.max_uses)
      then (invalid_request, d)
      else elim (validate_ttl limits req.ttl_seconds) [
        | Limits.ok ttl ↦ issue fresh env payload (checked_uses req.max_uses) ttl d
        | _ ↦ (invalid_request, d)
      ]
  | _ ↦ (invalid_request, d)
]

pub record Usage : Type 0 where
  pub used : ℕ
  pub maximum : Option ℕ
  pub left : Option ℕ

pub data ConsumeResponse : Type 0 where
  valid : Str → Usage → ConsumeResponse
  invalid_token : ConsumeResponse

abbrev pub usage_of : Token → Usage
usage_of t = record { used = t.used_count; maximum = t.max_uses; left = remaining t }

unfoldable pub consume : ℕ → ℕ → Str → Database → Reply ConsumeResponse × Database
consume ts env raw d =
    if is_nil (trim_space raw)
    then (invalid_request, d)
    else let (r, d') = consume_token ts env (trim_space raw) d in
      elim r [
        | Db.ok t ↦ (done (valid t.payload_json (usage_of t)), d')
        | Db.err not_found ↦ (done invalid_token, d')
        | Db.err _ ↦ (internal_error, d')
      ]

-- `tokenSummary`
pub record Summary : Type 0 where
  pub id : Str
  pub prefix : Str
  pub status : Status
  pub used_count : ℕ
  pub max_uses : Option ℕ
  pub expires_at : ℕ
  pub created_at : ℕ
  pub last_used_at : Option ℕ
  pub revoked_at : Option ℕ

unfoldable pub summarise : Token → ℕ → Summary
summarise t now = record {
  id = t.id;
  prefix = t.prefix;
  status = status_of t now;
  used_count = t.used_count;
  max_uses = t.max_uses;
  expires_at = t.expires_at;
  created_at = t.created_at;
  last_used_at = t.last_used_at;
  revoked_at = t.revoked_at;
}

-- The status parameter: absent, unknown, or one of the four.
unfoldable pub status_filter : Str → Option (Option Status)
status_filter s =
    if is_nil s
    then some none
    else elim (find_status s statuses) [ none ↦ none | some status ↦ some (some status) ]

-- The limit parameter, 50 where it is absent.
unfoldable pub page_limit : Str → Option ℤ
page_limit raw =
    if is_nil raw
    then some (pos 50)
    else elim (parse_int64 raw) [ none ↦ none | some n ↦ if ltb_ℤ n (pos 1) then none else some n ]

unfoldable pub list : ℕ → ℕ → Str → Str → Str → Database → Reply (List Summary × Str)
list ts env status limit cursor d = elim (status_filter status) [
  | none ↦ invalid_request
  | some s ↦ elim (page_limit limit) [
    | none ↦ invalid_request
    | some n ↦
        let (rows, next) = list_tokens ts env s n (parse_cursor cursor) d in
        done (map (λ (t : Token). summarise t ts) rows, cursor_string next)
  ]
]

-- The summary, the token and the payload.
unfoldable pub get : ℕ → ℕ → Str → Database → Reply (Summary × (Str × Str))
get ts env id d = elim (get_token env id d) [
  | Db.err not_found ↦ unknown
  | Db.err _ ↦ internal_error
  | Db.ok t ↦ elim (get_token_value env id d) [
    | Db.err e ↦ internal_error
    | Db.ok value ↦ done (summarise t ts, (value, t.payload_json))
  ]
]

unfoldable pub revoke : ℕ → ℕ → Str → Database → Reply Summary × Database
revoke ts env id d =
    let (r, d') = revoke_token ts env id d in
    elim r [
      | Db.ok t ↦ (done (summarise t ts), d')
      | Db.err not_found ↦ (
        elim (get_token env id d') [
          | Db.ok t ↦ done (summarise t ts)
          | Db.err not_found ↦ unknown
          | Db.err _ ↦ internal_error
        ],
        d',
      )
      | Db.err _ ↦ (internal_error, d')
    ]

unfoldable pub delete : ℕ → Str → Database → Reply Summary × Database
delete env id d =
    let (r, d') = delete_token env id d in
    elim r [
      | Db.ok _ ↦ (no_content, d')
      | Db.err not_found ↦ (unknown, d')
      | Db.err _ ↦ (internal_error, d')
    ]

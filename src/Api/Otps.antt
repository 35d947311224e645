-- ===== src/Api/Otps.antt =====
-- internal/api/otp.go.
pub mod Login
use tokenzy.Prelude.{
  ℕ, ◌+◌, ◌/◌, Bool, true, false, not, ◌||◌, Option, none, some, List, map, is_nil, if◌then◌else◌,
}
use tokenzy.Prelude.Int.{ℤ, pos, pos_part}
use tokenzy.Prelude.Str.{Str}
use tokenzy.Prelude.Text.{trim_space}
use tokenzy.Ttl.{second}
use tokenzy.Limits
use tokenzy.Limits.{Limits}
use tokenzy.Model.{Otp, valid_otp_type, valid_identifier}
use tokenzy.Otp
use tokenzy.Otp.{
  Status, status_of, find_status, statuses, resolve_length, resolve_attempts, validate_ttl, new_id,
  generate_code,
}
use tokenzy.Db
use tokenzy.Db.{Database, not_found}
use tokenzy.Db.Listing.{Cursor, parse_cursor, cursor_string}
use tokenzy.Db.Otps.{generate_otp, validate_otp, get_otp, get_otp_code, revoke_otp, delete_otp}
use tokenzy.Db.Otps.Filter.{OtpFilter, list_otps}
use tokenzy.Api.{Reply, created, done, no_content, invalid_request, unknown, internal_error}
use tokenzy.Api.Tokens.{expiry, page_limit}

pub record GenerateRequest : Type 0 where
  pub otp_type : Str
  pub identifier : Str
  pub length : Option ℤ
  pub ttl_seconds : ℤ
  pub max_attempts : Option ℤ

pub record GenerateResponse : Type 0 where
  pub id : Str
  pub otp_type : Str
  pub identifier : Str
  pub code : Str
  pub expires_at : ℕ
  pub max_attempts : ℕ
  pub reused : Bool

-- What comes from outside in one request: the time in nanoseconds, the random bytes and the digits.
pub record Fresh : Type 0 where
  pub now : ℕ
  pub id_bytes : Option Str
  pub draw : ℕ → Option ℕ

-- A request that has passed the checks.
pub record Checked : Type 0 where
  pub otp_type : Str
  pub identifier : Str
  pub length : ℕ
  pub max_attempts : ℕ
  pub ttl : ℤ

-- The checks of `generate` in their order; `none` is a bad request.
unfoldable pub check : Limits → GenerateRequest → Option Checked
check limits req =
    let t = trim_space req.otp_type in
    let i = trim_space req.identifier in
    if not (valid_otp_type t) || not (valid_identifier i)
    then none
    else elim (resolve_length req.length) [
      | none ↦ none
      | some length ↦ elim (resolve_attempts req.max_attempts) [
        | none ↦ none
        | some attempts ↦ elim (validate_ttl limits req.ttl_seconds) [
          | Limits.ok ttl ↦ some (record {
            otp_type = t;
            identifier = i;
            length = length;
            max_attempts = attempts;
            ttl = ttl;
          })
          | _ ↦ none
        ]
      ]
    ]

abbrev pub response : Otp → Bool → GenerateResponse
response o reused = record {
  id = o.id;
  otp_type = o.otp_type;
  identifier = o.identifier;
  code = o.code;
  expires_at = o.expires_at;
  max_attempts = o.max_attempts;
  reused = reused;
}

-- The draws and the transaction.
unfoldable pub issue : Fresh → ℕ → Checked → Database → Reply GenerateResponse × Database
issue fresh env c d = elim (new_id fresh.id_bytes) [
  | none ↦ (internal_error, d)
  | some id ↦ elim (generate_code (pos c.length) fresh.draw) [
    | Otp.ok code ↦
        let (r, d') =
          generate_otp (fresh.now / second) env id
            (record {
              otp_type = c.otp_type;
              identifier = c.identifier;
              code = code;
              max_attempts = c.max_attempts;
              expires_at = expiry fresh.now c.ttl;
            })
            d in
        elim r [
          | Db.err e ↦ (internal_error, d')
          | Db.ok (o, reused) ↦
              (if reused then done (response o true) else created (response o false), d')
        ]
    | _ ↦ (internal_error, d)
  ]
]

unfoldable pub generate :
    Limits → Fresh → ℕ → GenerateRequest → Database → Reply GenerateResponse × Database
generate limits fresh env req d = elim (check limits req) [
  | none ↦ (invalid_request, d)
  | some c ↦ issue fresh env c d
]

pub data ValidateResponse : Type 0 where
  valid : Str → Str → ValidateResponse
  invalid_code : ValidateResponse

unfoldable pub validate : ℕ → ℕ → Str → Str → Str → Database → Reply ValidateResponse × Database
validate ts env raw_type raw_identifier raw_code d =
    let t = trim_space raw_type in
    let i = trim_space raw_identifier in
    let c = trim_space raw_code in
    if is_nil t || (is_nil i || is_nil c)
    then (invalid_request, d)
    else let (r, d') = validate_otp ts env t i c d in
      elim r [
        | Db.ok o ↦ (done (valid o.otp_type o.identifier), d')
        | Db.err not_found ↦ (done invalid_code, d')
        | Db.err _ ↦ (internal_error, d')
      ]

-- `otpSummary`
pub record Summary : Type 0 where
  pub id : Str
  pub otp_type : Str
  pub identifier : Str
  pub status : Status
  pub attempt_count : ℕ
  pub max_attempts : ℕ
  pub expires_at : ℕ
  pub created_at : ℕ
  pub consumed_at : Option ℕ
  pub revoked_at : Option ℕ

unfoldable pub summarise : Otp → ℕ → Summary
summarise o now = record {
  id = o.id;
  otp_type = o.otp_type;
  identifier = o.identifier;
  status = status_of o now;
  attempt_count = o.attempt_count;
  max_attempts = o.max_attempts;
  expires_at = o.expires_at;
  created_at = o.created_at;
  consumed_at = o.consumed_at;
  revoked_at = o.revoked_at;
}

unfoldable pub status_filter : Str → Option (Option Status)
status_filter s =
    if is_nil s
    then some none
    else elim (find_status s statuses) [ none ↦ none | some status ↦ some (some status) ]

unfoldable pub list : ℕ → ℕ → Str → Str → Str → Str → Str → Database → Reply (List Summary × Str)
list ts env status otp_type identifier limit cursor d = elim (status_filter status) [
  | none ↦ invalid_request
  | some s ↦ elim (page_limit limit) [
    | none ↦ invalid_request
    | some n ↦
        let (rows, next) =
          list_otps ts env
            (record {
              status = s;
              otp_type = trim_space otp_type;
              identifier = trim_space identifier;
            })
            n (parse_cursor cursor) d in
        done (map (λ (o : Otp). summarise o ts) rows, cursor_string next)
  ]
]

-- The summary and the code.
unfoldable pub get : ℕ → ℕ → Str → Database → Reply (Summary × Str)
get ts env id d = elim (get_otp env id d) [
  | Db.err not_found ↦ unknown
  | Db.err _ ↦ internal_error
  | Db.ok o ↦ elim (get_otp_code env id d) [
    | Db.err e ↦ internal_error
    | Db.ok code ↦ done (summarise o ts, code)
  ]
]

unfoldable pub revoke : ℕ → ℕ → Str → Database → Reply Summary × Database
revoke ts env id d =
    let (r, d') = revoke_otp ts env id d in
    elim r [
      | Db.ok o ↦ (done (summarise o ts), d')
      | Db.err not_found ↦ (
        elim (get_otp env id d') [
          | Db.ok o ↦ done (summarise o ts)
          | Db.err not_found ↦ unknown
          | Db.err _ ↦ internal_error
        ],
        d',
      )
      | Db.err _ ↦ (internal_error, d')
    ]

unfoldable pub delete : ℕ → Str → Database → Reply Summary × Database
delete env id d =
    let (r, d') = delete_otp env id d in
    elim r [
      | Db.ok _ ↦ (no_content, d')
      | Db.err not_found ↦ (unknown, d')
      | Db.err _ ↦ (internal_error, d')
    ]

-- ===== src/Db/Otps.antt =====
-- internal/db/otps.go: one function for each query, on the table and the clock. A transaction on the
-- single write connection is one step.
pub mod StatusFilter
pub mod Trace
pub mod Writes
pub mod Issue
pub mod Reuse
pub mod Sweep
pub mod Filter
pub mod Search
pub mod Unique
pub mod Quiet
pub mod Validate
pub mod Guesses
use tokenzy.Prelude.{
  ℕ, ◌+◌, Bool, true, false, not, ◌&&◌, ◌||◌, Option, none, some, List, [], ◌∷◌, ◌++◌, map, ltb,
  leb, min, ◌==◌, is_some, is_none, is_nil, head?, if◌then◌else◌,
}
use tokenzy.Prelude.Int.{ℤ}
use tokenzy.Prelude.Str.{Str, str_eq}
use tokenzy.Prelude.Table.{
  select, select_row, count_where, update_where, delete_where, delete_limit,
}
use tokenzy.Model.{Environment, Otp}
use tokenzy.Otp.{Status}
use tokenzy.Db.Listing.{Position, Cursor, page, order_rows}
use tokenzy.Db.{Database, Result, ok, err, not_found, duplicate, failure}

-- `otpColumns` leaves the code out.
unfoldable pub scan_otp : Otp → Otp
scan_otp o = record o { code = [] }

pub record OtpRequest : Type 0 where
  pub otp_type : Str
  pub identifier : Str
  pub code : Str
  pub max_attempts : ℕ
  pub expires_at : ℕ

abbrev pub position : Otp → Position
position o = record { created = o.created_at; id = o.id }

-- `environment_id = ? AND type = ? AND identifier = ?`
abbrev pub addressed : ℕ → Str → Str → Otp → Bool
addressed env otp_type identifier o =
    o.environment_id == env && (str_eq o.otp_type otp_type && str_eq o.identifier identifier)

-- Neither spent nor cancelled, expired or locked.
abbrev pub is_live : ℕ → Otp → Bool
is_live ts o =
    is_none o.consumed_at
    && (is_none o.revoked_at && (ltb ts o.expires_at && ltb o.attempt_count o.max_attempts))

-- The WHERE clause that finds the code outstanding, and the one that counts an attempt.
unfoldable pub outstanding : ℕ → ℕ → Str → Str → Otp → Bool
outstanding ts env otp_type identifier o = addressed env otp_type identifier o && is_live ts o

abbrev pub new_otp : ℕ → ℕ → Str → OtpRequest → Otp
new_otp ts env id req = record {
  id = id;
  environment_id = env;
  otp_type = req.otp_type;
  identifier = req.identifier;
  code = req.code;
  attempt_count = 0;
  max_attempts = req.max_attempts;
  expires_at = req.expires_at;
  consumed_at = none;
  revoked_at = none;
  created_at = ts;
}

abbrev pub id_is : Str → Otp → Bool
id_is id o = str_eq o.id id

-- `SELECT code FROM otps WHERE id = ?`
unfoldable pub otp_code_tx : Str → List Otp → Option Str
otp_code_tx id rows = elim (select_row (id_is id) rows) [ none ↦ none | some o ↦ some o.code ]

abbrev pub env_exists : ℕ → List Environment → Bool
env_exists env es = is_some (select_row (λ (e : Environment). e.id == env) es)

-- The constraints of an INSERT: a new primary key and an environment that exists.
unfoldable pub insert_otp : ℕ → ℕ → Str → OtpRequest → Database → Result (Otp × Bool) × Database
insert_otp ts env id req d =
    if is_some (select_row (id_is id) d.otps) || not (env_exists env d.environments)
    then (err failure, d)
    else let o = new_otp ts env id req in (ok (o, false), record d { otps = d.otps ++ o ∷ [] })

-- The newest code outstanding.
abbrev pub existing : ℕ → ℕ → OtpRequest → Database → Option Otp
existing ts env req d =
    head? (order_rows position (select (outstanding ts env req.otp_type req.identifier) d.otps))

-- The flag says whether the code is one that was already outstanding.
unfoldable pub generate_otp : ℕ → ℕ → Str → OtpRequest → Database → Result (Otp × Bool) × Database
generate_otp ts env id req d = elim (existing ts env req d) [
  | none ↦ insert_otp ts env id req d
  | some o ↦ elim (otp_code_tx o.id d.otps) [
    | none ↦ (err failure, d)
    | some code ↦ (ok (record o { code = code }, true), d)
  ]
]

-- The WHERE clause of the consuming UPDATE.
unfoldable pub matching : ℕ → ℕ → Str → Str → Str → Otp → Bool
matching ts env otp_type identifier code o =
    addressed env otp_type identifier o && (str_eq o.code code && is_live ts o)

abbrev pub consume : ℕ → Otp → Otp
consume ts o = record o { consumed_at = some ts }

abbrev pub count_attempt : Otp → Otp
count_attempt o = record o { attempt_count = o.attempt_count + 1 }

unfoldable pub validate_otp : ℕ → ℕ → Str → Str → Str → Database → Result Otp × Database
validate_otp ts env otp_type identifier code d =
    elim (select_row (matching ts env otp_type identifier code) d.otps) [
      | some o ↦ (
        ok (scan_otp (consume ts o)),
        record d {
          otps = update_where (matching ts env otp_type identifier code) (consume ts) d.otps;
        },
      )
      | none ↦ (
        err not_found,
        record d {
          otps = update_where (outstanding ts env otp_type identifier) count_attempt d.otps;
        },
      )
    ]

abbrev pub by_id : ℕ → Str → Otp → Bool
by_id env id o = str_eq o.id id && o.environment_id == env

unfoldable pub get_otp : ℕ → Str → Database → Result Otp
get_otp env id d = elim (select_row (by_id env id) d.otps) [
  | none ↦ err not_found
  | some o ↦ ok (scan_otp o)
]

unfoldable pub get_otp_code : ℕ → Str → Database → Result Str
get_otp_code env id d = elim (select_row (by_id env id) d.otps) [
  | none ↦ err not_found
  | some o ↦ ok o.code
]

-- `otpStatusPredicate`; no status selects every row.
unfoldable pub otp_status_predicate : Option Status → ℕ → Otp → Bool
otp_status_predicate (some Status.revoked) ts o = is_some o.revoked_at
otp_status_predicate (some Status.consumed) ts o = is_none o.revoked_at && is_some o.consumed_at
otp_status_predicate (some Status.expired) ts o =
    is_none o.revoked_at && (is_none o.consumed_at && leb o.expires_at ts)
otp_status_predicate (some Status.locked) ts o =
    is_none o.revoked_at
    && (is_none o.consumed_at && (ltb ts o.expires_at && leb o.max_attempts o.attempt_count))
otp_status_predicate (some Status.active) ts o =
    is_none o.revoked_at
    && (is_none o.consumed_at && (ltb ts o.expires_at && ltb o.attempt_count o.max_attempts))
otp_status_predicate none ts o = true

unfoldable pub count_otps_by_status : ℕ → ℕ → Database → Status → ℕ
count_otps_by_status ts env d s =
    count_where (λ (o : Otp). o.environment_id == env && otp_status_predicate (some s) ts o) d.otps

abbrev pub cancel : ℕ → Otp → Otp
cancel ts o = record o { revoked_at = some ts }

abbrev pub revocable : ℕ → Str → Otp → Bool
revocable env id o = by_id env id o && is_none o.revoked_at

unfoldable pub revoke_otp : ℕ → ℕ → Str → Database → Result Otp × Database
revoke_otp ts env id d = elim (select_row (revocable env id) d.otps) [
  | none ↦ (err not_found, d)
  | some o ↦ (
    ok (scan_otp (cancel ts o)),
    record d { otps = update_where (revocable env id) (cancel ts) d.otps },
  )
]

unfoldable pub delete_otp : ℕ → Str → Database → Result (Unit {0}) × Database
delete_otp env id d = (
  if count_where (by_id env id) d.otps == 0 then err not_found else ok tt,
  record d { otps = delete_where (by_id env id) d.otps },
)

abbrev pub earlier : ℕ → Option ℕ → Bool
earlier before at = elim at [ none ↦ false | some t ↦ ltb t before ]

unfoldable pub dead : ℕ → Otp → Bool
dead before o =
    ltb o.expires_at before || (earlier before o.consumed_at || earlier before o.revoked_at)

unfoldable pub delete_dead_otps : ℕ → ℕ → Database → ℕ × Database
delete_dead_otps before limit d = (
  min limit (count_where (dead before) d.otps),
  record d { otps = delete_limit limit (dead before) d.otps },
)

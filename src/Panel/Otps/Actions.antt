-- ===== src/Panel/Otps/Actions.antt =====
-- internal/ui/otps.go: the handlers.
use tokenzy.Prelude.{ℕ, not, Option, none, some, [], is_nil, if◌then◌else◌}
use tokenzy.Prelude.Int.{ℤ, pos}
use tokenzy.Prelude.Str.{Str, codes}
use tokenzy.Prelude.Text.{trim_space}
use tokenzy.Prelude.Decimal.{parse_int64}
use tokenzy.Ttl
use tokenzy.Model.{Otp, valid_otp_type, valid_identifier}
use tokenzy.Otp as OtpRules
use tokenzy.Otp.{resolve_length, resolve_attempts, parse_ttl, new_id, generate_code}
use tokenzy.Db.{Database, ok, err, not_found}
use tokenzy.Db.Otps as Store
use tokenzy.Panel.{
  Request, unix, expiry, Answer, fragment, internal_error, render_listing, Scope, Resolved, found,
  missing, failed, resolve_env, reading, writing, settled,
}
use tokenzy.Panel.Otps.{
  Site, OtpForm, OtpRow, OtpFilterState, OtpsView, OtpsQuery, OtpError, type_error,
  identifier_error, length_error, attempts_error, ttl_error, query_of, otps_view, otp_row_for,
}

-- `renderOTPsPanel`
unfoldable pub render_otps_panel : Site → Request → OtpsQuery → ℕ → Database → Answer OtpsView
render_otps_panel site r q code d = fragment code (codes "otps_panel") (otps_view site r q d)

-- `otpFilterFrom`, on the three query parameters.
unfoldable pub otp_filter_from : Str → Str → Str → OtpFilterState
otp_filter_from status otp_type identifier = record {
  status = status;
  otp_type = trim_space otp_type;
  identifier = trim_space identifier;
}

unfoldable pub otps_page : Site → Request → OtpFilterState → Database → Answer OtpsView
otps_page site r filter d = reading (resolve_env r d) λ scope.
    render_listing r (codes "otps.html") (codes "otps_panel")
      (otps_view site r (query_of scope filter) d)

unfoldable pub otp_rows : Site → Request → OtpFilterState → Str → Database → Answer OtpsView
otp_rows site r filter cursor d = reading (resolve_env r d) λ scope.
    fragment 200 (codes "otp_rows")
      (otps_view site r (record (query_of scope filter) { cursor = cursor }) d)

-- `parseOptionalInt`; the outer `none` is the error.
unfoldable pub parse_optional_int : Str → Option (Option ℤ)
parse_optional_int raw =
    if is_nil raw
    then some none
    else elim (parse_int64 raw) [ none ↦ none | some n ↦ some (some n) ]

-- The form as it is read, four of its fields trimmed.
unfoldable pub read_form : OtpForm → OtpForm
read_form f = record f {
  otp_type = trim_space f.otp_type;
  identifier = trim_space f.identifier;
  length = trim_space f.length;
  max_attempts = trim_space f.max_attempts;
}

-- A form that has passed the checks.
pub record Checked : Type 0 where
  pub length : ℕ
  pub max_attempts : ℕ
  pub ttl : ℤ

pub data Verdict : Type 0 where
  accepted : Checked → Verdict
  refused : OtpError → Verdict

unfoldable pub check_length : Str → Option ℕ
check_length raw = elim (parse_optional_int raw) [ none ↦ none | some n ↦ resolve_length n ]

unfoldable pub check_attempts : Str → Option ℕ
check_attempts raw = elim (parse_optional_int raw) [ none ↦ none | some n ↦ resolve_attempts n ]

-- The checks of `createOTP` in their order, on the form as it is read.
unfoldable pub check_form : Site → OtpForm → Verdict
check_form site f =
    if not (valid_otp_type f.otp_type)
    then refused type_error
    else if not (valid_identifier f.identifier)
    then refused identifier_error
    else elim (check_length f.length) [
      | none ↦ refused length_error
      | some length ↦ elim (check_attempts f.max_attempts) [
        | none ↦ refused attempts_error
        | some attempts ↦ elim (parse_ttl site.limits f.ttl_value f.ttl_unit) [
          | Ttl.err e ↦ refused (ttl_error e)
          | Ttl.ok ttl ↦ accepted (record { length = length; max_attempts = attempts; ttl = ttl })
        ]
      ]
    ]

-- The draws of one request.
pub record Entropy : Type 0 where
  pub id_bytes : Option Str
  pub draw : ℕ → Option ℕ

-- `createOTP` behind the checks: the draws, the transaction and the panel that shows the code.
unfoldable pub issue :
    Site
    → Request
    → Scope
    → OtpFilterState
    → OtpForm
    → Entropy
    → Checked
    → Database
    → Answer OtpsView × Database
issue site r scope filter f rnd c d = elim (new_id rnd.id_bytes) [
  | none ↦ (internal_error, d)
  | some id ↦ elim (generate_code (pos c.length) rnd.draw) [
    | OtpRules.ok code ↦
        let (res, d') =
          Store.generate_otp (unix r) scope.env.id id
            (record {
              otp_type = f.otp_type;
              identifier = f.identifier;
              code = code;
              max_attempts = c.max_attempts;
              expires_at = expiry r c.ttl;
            })
            d in
        elim res [
          | err e ↦ (internal_error, d')
          | ok (o, reused) ↦ (
            render_otps_panel site r
                (record (query_of scope filter) {
                  new_code = o.code;
                  new_code_id = o.id;
                  reused = reused;
                })
                200 d',
            d',
          )
        ]
    | _ ↦ (internal_error, d)
  ]
]

-- `createOTP`, on the form and the hidden filter fields.
unfoldable pub create_otp :
    Site → Request → OtpFilterState → OtpForm → Entropy → Database → Answer OtpsView × Database
create_otp site r filter form rnd d = writing (resolve_env r d) d λ scope.
    elim (check_form site (read_form form)) [
      | refused e ↦ (
        render_otps_panel site r
            (record (query_of scope filter) { error = some e; form = some (read_form form) }) 422 d,
        d,
      )
      | accepted c ↦ issue site r scope filter (read_form form) rnd c d
    ]

-- `resolveOTP`
unfoldable pub resolve_otp : Request → Database → Resolved (Scope × Otp)
resolve_otp r d = elim (resolve_env r d) [
  | missing ↦ missing
  | failed ↦ failed
  | found scope ↦ elim (Store.get_otp scope.env.id r.id d) [
    | ok o ↦ found (scope, o)
    | err not_found ↦ missing
    | err _ ↦ failed
  ]
]

abbrev pub row_group : OtpRow → Answer OtpRow
row_group row = fragment 200 (codes "otp_group") row

unfoldable pub otp_detail : Site → Request → OtpFilterState → Database → Answer OtpRow
otp_detail site r filter d = reading (resolve_otp r d) λ found_otp.
    row_group (record (otp_row_for site.print found_otp.0 found_otp.1 (unix r) filter) {
      detail = some (record { code = [] });
    })

unfoldable pub otp_row : Site → Request → OtpFilterState → Database → Answer OtpRow
otp_row site r filter d =
    reading (resolve_otp r d)
      λ found_otp. row_group (otp_row_for site.print found_otp.0 found_otp.1 (unix r) filter)

unfoldable pub reveal_otp : Site → Request → OtpFilterState → Database → Answer OtpRow
reveal_otp site r filter d = reading (resolve_otp r d) λ found_otp.
    elim (Store.get_otp_code found_otp.0.env.id found_otp.1.id d) [
      | err _ ↦ internal_error
      | ok code ↦
          row_group (record (otp_row_for site.print found_otp.0 found_otp.1 (unix r) filter) {
            detail = some (record { code = code });
          })
    ]

-- A code that is revoked already is no error of the UPDATE; the row is read again.
unfoldable pub revoke_otp : Site → Request → OtpFilterState → Database → Answer OtpRow × Database
revoke_otp site r filter d = writing (resolve_otp r d) d λ found_otp.
    let env = found_otp.0.env.id in
    let (res, d') = Store.revoke_otp (unix r) env found_otp.1.id d in
    let reread : Answer OtpRow = elim (Store.get_otp env found_otp.1.id d') [
      | err _ ↦ internal_error
      | ok o ↦ row_group (otp_row_for site.print found_otp.0 o (unix r) filter)
    ] in
    settled res reread d'

unfoldable pub delete_otp : Site → Request → OtpFilterState → Database → Answer OtpsView × Database
delete_otp site r filter d = writing (resolve_env r d) d λ scope.
    let (res, d') = Store.delete_otp scope.env.id r.id d in
    settled res (render_otps_panel site r (query_of scope filter) 200 d') d'

-- ===== src/Api/Otps/Login.antt =====
-- A code that was issued over the API validates over the API, once.
use tokenzy.Prelude.{
  ℕ, ◌/◌, ◌≤◌, ◌<◌, ◌≡◌, ◌∙◌, refl, ap, true, false, none, some, is_nil, List, All,
}
use tokenzy.Prelude.Int.{pos}
use tokenzy.Prelude.Str.{Str}
use tokenzy.Prelude.Text.{trim_space}
use tokenzy.Prelude.Table.{select_row}
use tokenzy.Ttl.{second}
use tokenzy.Limits.{Limits}
use tokenzy.Otp
use tokenzy.Otp.{new_id, generate_code, resolve_attempts}
use tokenzy.Db
use tokenzy.Db.{Database, Result, not_found}
use tokenzy.Model.{Otp}
use tokenzy.Db.Otps.{
  OtpRequest, id_is, env_exists, existing, new_otp, generate_otp, validate_otp, scan_otp,
}
use tokenzy.Db.Otps.Trace.{OtpCall, run, IsRising, end_time}
use tokenzy.Db.Otps.Quiet.{AsksElsewhere}
use tokenzy.Db.Otps.Issue.{validate_otp-generate_otp}
use tokenzy.Api.{Reply, created, done, internal_error}
use tokenzy.Api.Tokens.{expiry}
use tokenzy.Api.Otps.{
  GenerateRequest, Fresh, Checked, check, response, issue, generate, validate, ValidateResponse,
  valid, invalid_code,
}

-- The row that a checked request asks for.
abbrev pub wanted : Fresh → Checked → Str → OtpRequest
wanted fresh c code = record {
  otp_type = c.otp_type;
  identifier = c.identifier;
  code = code;
  max_attempts = c.max_attempts;
  expires_at = expiry fresh.now c.ttl;
}

generated :
    (limits : Limits) (fresh : Fresh) (env : ℕ) (req : GenerateRequest) (c : Checked)
    (id code : Str) (o : Otp) (d : Database)
    → check limits req ≡ some c
    → new_id fresh.id_bytes ≡ some id
    → generate_code (pos c.length) fresh.draw ≡ Otp.ok code
    → (generate_otp (fresh.now / second) env id (wanted fresh c code) d).0 ≡ Db.ok (o, false)
    → generate limits fresh env req d ≡ (
      created (response o false),
      (generate_otp (fresh.now / second) env id (wanted fresh c code) d).1,
    )
unfolding generate issue
generated limits fresh env req c id code o d hc hi hg hq =
    rw (hc, generate) (rw (hi, issue) (rw hg (rw hq refl)))

-- What `validate` answers for what the query returned.
abbrev answer : Result Otp → Reply ValidateResponse
answer (Db.ok o) = done (valid o.otp_type o.identifier)
answer (Db.err not_found) = done invalid_code
answer (Db.err Db.duplicate) = internal_error
answer (Db.err Db.failure) = internal_error

answered :
    (r : Result Otp × Database)
    → (elim r.0 as (λ _. Reply ValidateResponse × Database) [
      | Db.ok o ↦ (done (valid o.otp_type o.identifier), r.1)
      | Db.err not_found ↦ (done invalid_code, r.1)
      | Db.err _ ↦ (internal_error, r.1)
    ])
      ≡ (answer r.0, r.1)
answered (Db.ok o, d) = refl
answered (Db.err not_found, d) = refl
answered (Db.err Db.duplicate, d) = refl
answered (Db.err Db.failure, d) = refl

abbrev outcome : ℕ → ℕ → Str → Str → Str → Database → Reply ValidateResponse × Database
outcome ts env t i c d = (answer (validate_otp ts env t i c d).0, (validate_otp ts env t i c d).1)

trimmed :
    (ts env : ℕ) (raw_type raw_identifier raw_code : Str) (d : Database)
    → is_nil (trim_space raw_type) ≡ false
    → is_nil (trim_space raw_identifier) ≡ false
    → is_nil (trim_space raw_code) ≡ false
    → validate ts env raw_type raw_identifier raw_code d
      ≡ outcome ts env (trim_space raw_type) (trim_space raw_identifier) (trim_space raw_code) d
unfolding validate
trimmed ts env raw_type raw_identifier raw_code d h i k =
    rw (h, validate) (rw i (rw k (answered _)))

validated :
    (ts env : ℕ) (raw_type raw_identifier raw_code t i c : Str) (d : Database)
    → trim_space raw_type ≡ t
    → trim_space raw_identifier ≡ i
    → trim_space raw_code ≡ c
    → is_nil t ≡ false
    → is_nil i ≡ false
    → is_nil c ≡ false
    → validate ts env raw_type raw_identifier raw_code d ≡ outcome ts env t i c d
validated ts env raw_type raw_identifier raw_code t i c d et ei ec nt ni nc =
    trimmed ts env raw_type raw_identifier raw_code d (rw et nt) (rw ei ni) (rw ec nc)
    ∙ ap (λ x. outcome ts env x (trim_space raw_identifier) (trim_space raw_code) d) et
    ∙ ap (λ x. outcome ts env t x (trim_space raw_code) d) ei
    ∙ ap (λ x. outcome ts env t i x d) ec

-- A request that passes the checks, at a time when no code is outstanding for its address, under a
-- fresh id and in an environment that exists, is answered with a new code, which allows at least one
-- attempt. Sent back with its type and identifier before it expires, with white space around them or
-- not, the code is valid. From then on a validation with the same type and identifier and any code
-- that is not blank, the right one included, is answered "invalid code", whatever calls on one-time
-- codes come in between, as long as none of these requests a code for the address and the clock does
-- not run backwards. The type, the identifier and the new code are not blank.
pub validate-generate :
    (limits : Limits) (fresh : Fresh) (now later env : ℕ) (req : GenerateRequest) (c : Checked)
    (id code raw_type raw_identifier raw_code raw_guess : Str) (cs : List (ℕ × OtpCall))
    (d : Database)
    → check limits req ≡ some c
    → new_id fresh.id_bytes ≡ some id
    → generate_code (pos c.length) fresh.draw ≡ Otp.ok code
    → existing (fresh.now / second) env (wanted fresh c code) d ≡ none
    → select_row (id_is id) d.otps ≡ none
    → env_exists env d.environments ≡ true
    → trim_space raw_type ≡ c.otp_type
    → trim_space raw_identifier ≡ c.identifier
    → trim_space raw_code ≡ code
    → is_nil c.otp_type ≡ false
    → is_nil c.identifier ≡ false
    → is_nil code ≡ false
    → is_nil (trim_space raw_guess) ≡ false
    → 0 < c.max_attempts
    → fresh.now / second ≤ now
    → now < expiry fresh.now c.ttl
    → IsRising now cs
    → end_time now cs ≤ later
    → All (λ x. AsksElsewhere env c.otp_type c.identifier x.1) cs
    → let made = generate limits fresh env req d in
      let used = validate now env raw_type raw_identifier raw_code made.1 in
      (made.0
        ≡ created (response (new_otp (fresh.now / second) env id (wanted fresh c code)) false))
      × (used.0 ≡ done (valid c.otp_type c.identifier))
      × ((validate later env raw_type raw_identifier raw_guess (run cs used.1)).0
          ≡ done invalid_code)
unfolding scan_otp
validate-generate limits fresh now later env req c id code rt ri rc rg cs d hc hi hg he hd hx et ei
      ec nt ni nc ng ha h1 h3 rising end others =
    let w = wanted fresh c code in
    let (q, u, v) =
      validate_otp-generate_otp (fresh.now / second) now later env id (trim_space rg) w cs d he hd
        hx h1 h3 ha rising end others in
    let issued = (generate_otp (fresh.now / second) env id w d).1 in
    let first = validated now env rt ri rc c.otp_type c.identifier code issued et ei ec nt ni nc in
    let spent = (validate_otp now env c.otp_type c.identifier code issued).1 in
    let again =
      validated later env rt ri rg c.otp_type c.identifier (trim_space rg) (run cs spent) et ei refl
        nt ni ng in
    rw
      (generated limits fresh env req c id code (new_otp (fresh.now / second) env id w) d hc hi hg
        q)
      (
        refl,
        ap (λ p. p.0) first ∙ ap answer u,
        ap (λ p. (validate later env rt ri rg (run cs p.1)).0) first
            ∙ ap (λ p. p.0) again
            ∙ ap answer v,
      )

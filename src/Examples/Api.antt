-- ===== src/Examples/Api.antt =====
-- The API's handlers and the recording of an event at concrete inputs.
use tokenzy.Prelude.{
  List, ℕ, ◌≡◌, ◌*◌, refl, some, none, [], ◌∷◌, ◌++◌, Bool, map, not, is_nil, arith,
}
use tokenzy.Prelude.Int.{pos}
use tokenzy.Prelude.Str.{Str, codes, str_eq}
use tokenzy.Prelude.Text.{trim_space, strip, leading_space, trailing_space}
use tokenzy.Prelude.Table.{select, select_row}
use tokenzy.Ttl.{second, mul_int64}
use tokenzy.Limits
use tokenzy.Limits.{Limits, check_seconds}
use tokenzy.Model.{
  Environment, WebhookDelivery, EventType, valid_otp_type, all_bytes, otp_type_byte, is_lower_alnum,
  valid_identifier,
}
use tokenzy.Token.Limits as TokenLimits
use tokenzy.Token.Limits.{Json, validate_payload, validate_max_uses}
use tokenzy.Token.Generate.{generate, new_id, value_prefix, hex, hex_digit}
use tokenzy.Otp
use tokenzy.Otp.{draw_digits, generate_code, resolve_length, resolve_attempts}
use tokenzy.Db.{TokenEvent}
use tokenzy.Db.Listing.{order_rows}
use tokenzy.Db.Otps.{new_otp}
use tokenzy.Webhook.Record.{Format, record_event}
use tokenzy.Webhook.Record.Audience.{record_event-audience}
use tokenzy.Webhook.Record.Listeners.{AreListeners}
use tokenzy.Api.{created, done}
use tokenzy.Api.Tokens.{CreateRequest, expiry, create, consume, valid}
use tokenzy.Db.Otps.Trace.{validate, run, end_time}
use tokenzy.Api.Tokens as TokenApi
use tokenzy.Api.Tokens.Issue.{consume-create}
use tokenzy.Api.Otps as OtpApi
use tokenzy.Api.Otps.{GenerateRequest, Checked, check, response, invalid_code}
use tokenzy.Api.Otps.Login.{wanted, validate-generate}
use tokenzy.Examples.Tokens.{store, pass}
use tokenzy.Examples.Deliveries.{json, waiting}

abbrev pub fmt : Format
fmt = record { marshal = λ b. some b.id; rfc3339 = λ ts. codes "1970-01-01T00:00:00Z" }

abbrev pub event : TokenEvent
event = record { env_id = 1; event_type = EventType.token_created; tok = pass (codes "t1") 1 [] }

abbrev pub prod : Environment
prod = record { id = 1; project_id = 1; slug = codes "prod"; created_at = 0 }

record_event-audience_example :
    let (nudged, d') = record_event json fmt 20 (some (7 ∷ [])) event waiting in
    (ids : List ℕ) × AreListeners event waiting.webhooks ids
    × (map (λ (x : WebhookDelivery). x.webhook_id) d'.deliveries
        ≡ map (λ (x : WebhookDelivery). x.webhook_id) waiting.deliveries ++ ids)
    × (nudged ≡ not (is_nil ids))
unfolding select_row
record_event-audience_example =
    record_event-audience json fmt 20 (7 ∷ []) event prod waiting (λ b. (b.id, refl)) refl

abbrev pub texts : Json
texts = record { valid = λ s. Bool.true; compact = λ s. some s }

abbrev pub bytes : Str
bytes = 0 ∷ 1 ∷ 2 ∷ 3 ∷ 4 ∷ 5 ∷ 6 ∷ 7 ∷ 8 ∷ 9 ∷ 10 ∷ 11 ∷ 12 ∷ 13 ∷ 14 ∷ 255 ∷ []

abbrev fresh : TokenApi.Fresh
fresh = record {
  now = 20 * second;
  id_bytes = some bytes;
  first_bytes = some bytes;
  second_bytes = some bytes;
}

abbrev wish : CreateRequest
wish = record { payload = codes "{}"; max_uses = some (pos 3); ttl_seconds = pos 60 }

abbrev pub day : Limits
day = record { max_ttl = pos (86400 * second) }

abbrev new_value : Str
new_value = value_prefix ++ hex (bytes ++ bytes)

consume-create_example :
    let (answer, d') = create texts day fresh 1 wish store in
    (answer
      ≡ created (record {
        id = codes "tok_" ++ hex bytes;
        token = new_value;
        expires_at = 80;
        max_uses = some 3;
      }))
    × ((consume 70 1 (32 ∷ new_value) d').0
        ≡ done (valid (codes "{}") (record { used = 1; maximum = some 3; left = some 2 })))
unfolding validate_payload validate_max_uses TokenLimits.validate_ttl Limits.validate_ttl
    Limits.ceiling check_seconds mul_int64 generate new_id hex hex_digit trim_space strip
    leading_space trailing_space select_row str_eq
consume-create_example =
    consume-create texts day fresh 70 1 wish store (codes "{}") (codes "tok_" ++ hex bytes)
      new_value (32 ∷ new_value) (pos (60 * second)) refl refl refl refl refl refl refl refl
      (omega arith)

abbrev otp_fresh : OtpApi.Fresh
otp_fresh = record { now = 20 * second; id_bytes = some bytes; draw = λ i. some 7 }

abbrev ask : GenerateRequest
ask = record {
  otp_type = codes "reset";
  identifier = codes " ada";
  length = some (pos 4);
  ttl_seconds = pos 60;
  max_attempts = none;
}

abbrev asked : Checked
asked = record {
  otp_type = codes "reset";
  identifier = codes "ada";
  length = 4;
  max_attempts = 5;
  ttl = pos (60 * second);
}

validate-generate_example :
    let made = OtpApi.generate day otp_fresh 1 ask store in
    let used = OtpApi.validate 30 1 (codes "reset") (codes "ada") (codes "7777 ") made.1 in
    (made.0
      ≡ created (
          response
            (new_otp 20 1 (codes "otp_" ++ hex bytes) (wanted otp_fresh asked (codes "7777")))
            Bool.false))
    × (used.0 ≡ done (OtpApi.valid (codes "reset") (codes "ada")))
    × ((OtpApi.validate 40 1
          (codes "reset")
          (codes "ada")
          (codes "7777")
          (run ((35, validate 1 (codes "reset") (codes "ada") (codes "1")) ∷ []) used.1)).0
        ≡ done invalid_code)
unfolding check valid_otp_type all_bytes otp_type_byte is_lower_alnum valid_identifier
    resolve_length resolve_attempts Otp.validate_ttl Limits.validate_ttl Limits.ceiling
    check_seconds mul_int64 Otp.new_id hex hex_digit generate_code draw_digits trim_space strip
    leading_space trailing_space select_row select order_rows end_time
validate-generate_example =
    validate-generate day otp_fresh 30 40 1 ask asked (codes "otp_" ++ hex bytes) (codes "7777")
      (codes "reset") (codes "ada") (codes "7777 ") (codes "7777")
      ((35, validate 1 (codes "reset") (codes "ada") (codes "1")) ∷ []) store refl refl refl refl
      refl refl refl refl refl refl refl refl refl (omega arith) (omega arith) (omega arith)
      (ground arith) (omega arith) (tt, tt)

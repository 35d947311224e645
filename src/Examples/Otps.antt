-- ===== src/Examples/Otps.antt =====
-- The table of one-time codes at concrete inputs.
use tokenzy.Prelude.{ℕ, ◌≤◌, ◌≡◌, refl, true, false, some, List, [], ◌∷◌, arith}
use tokenzy.Prelude.Str.{Str, codes, str_eq}
use tokenzy.Prelude.Table.{select, select_row, count_where}
use tokenzy.Model.{Otp}
use tokenzy.Db.{Database, ok, err, not_found}
use tokenzy.Db.Listing.{order_rows}
use tokenzy.Db.Otps.{
  OtpRequest, outstanding, id_is, new_otp, generate_otp, validate_otp, scan_otp, consume,
}
use tokenzy.Db.Otps.Trace.{OtpCall, generate, validate, end_time, run}
use tokenzy.Db.Otps.Unique.{AtMostOneLive, run-AtMostOneLive}
use tokenzy.Db.Otps.Guesses.{guesses, guesses-le-tries}
use tokenzy.Db.Otps.Validate.{Outcome, validate_otp-Outcome}
use tokenzy.Db.Otps.Issue.{validate_otp-generate_otp}
use tokenzy.Db.Otps.Reuse.{generate_otp-reuse}
use tokenzy.Examples.Tokens.{store}

abbrev reset : Str
reset = codes "reset"

abbrev ada : Str
ada = codes "ada"

abbrev request : OtpRequest
request = record {
  otp_type = reset;
  identifier = ada;
  code = codes "1234";
  max_attempts = 2;
  expires_at = 100;
}

abbrev issued : Database
issued = record store { otps = new_otp 20 1 (codes "o1") request ∷ [] }

abbrev calls : List (ℕ × OtpCall)
calls =
    (20, generate 1 (codes "o1") request)
    ∷ (21, validate 1 reset ada (codes "0000"))
    ∷ (22, validate 1 reset ada (codes "1111"))
    ∷ (23, validate 1 reset ada (codes "1234"))
    ∷ []

run-AtMostOneLive_example : AtMostOneLive (end_time 10 calls) (run calls store).otps
unfolding count_where
run-AtMostOneLive_example =
    run-AtMostOneLive 10 calls store (omega arith, (omega arith, (omega arith, (omega arith, tt))))
      (λ env t i. omega arith)

guesses-le-tries_example : guesses 1 reset ada calls store ≤ 2
unfolding str_eq
guesses-le-tries_example = guesses-le-tries 1 reset ada calls store

validate_otp-Outcome_example :
    Outcome 50 1 reset ada (codes "1234") issued (validate_otp 50 1 reset ada (codes "1234") issued)
validate_otp-Outcome_example = validate_otp-Outcome 50 1 reset ada (codes "1234") issued

-- Two guesses after the code was spent, and a code for someone else.
abbrev between : List (ℕ × OtpCall)
between =
    (51, validate 1 reset ada (codes "1234"))
    ∷ (52, validate 1 reset ada (codes "9999"))
    ∷ (55, generate 1 (codes "o2") (record request { identifier = codes "bob" }))
    ∷ []

validate_otp-generate_otp_example :
    let made = generate_otp 20 1 (codes "o1") request store in
    let used = validate_otp 50 1 reset ada (codes "1234") made.1 in
    (made.0 ≡ ok (new_otp 20 1 (codes "o1") request, false))
    × (used.0 ≡ ok (scan_otp (consume 50 (new_otp 20 1 (codes "o1") request))))
    × ((validate_otp 60 1 reset ada (codes "1234") (run between used.1)).0 ≡ err not_found)
unfolding order_rows select select_row end_time str_eq
validate_otp-generate_otp_example =
    validate_otp-generate_otp 20 50 60 1 (codes "o1") (codes "1234") request between store refl refl
      refl (omega arith) (omega arith) (omega arith) (ground arith) (omega arith)
      (tt, (tt, (refl, tt)))

generate_otp-reuse_example :
    (o : Otp) × (select_row (id_is o.id) issued.otps ≡ some o)
    × (outstanding 50 1 reset ada o ≡ true)
    × (generate_otp 50 1 (codes "o2") request issued ≡ (ok (o, true), issued))
unfolding select_row outstanding str_eq
generate_otp-reuse_example = generate_otp-reuse 50 1 (codes "o2") request issued (tt, tt) refl

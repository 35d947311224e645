-- ===== src/Db/Otps/Unique.antt =====
-- At most one code is outstanding for an address at a time.
use tokenzy.Prelude.{
  ℕ, ◌≤◌, ◌≡◌, ◌≢◌, refl, sym, ap, ◌∙◌, length, inl, inr, Bool-cases, true, none, List, [], ◌∷◌,
  ◌++◌, arith, head?,
}
use tokenzy.Prelude.Str.{Str, str_eq-eq}
use tokenzy.Prelude.Table.{count_where, length-select}
use tokenzy.Prelude.Table.Counts.{
  count-append, count-weaker, count-update_where, count-delete_where, count-delete_limit,
}
use tokenzy.Model.{Otp}
use tokenzy.Db.{Database}
use tokenzy.Db.Listing.{order_rows, insert_row}
use tokenzy.Db.Otps.{
  OtpRequest, position, new_otp, existing, matching, outstanding, consume, count_attempt, revocable,
  cancel, by_id, dead, delete_otp, delete_dead_otps,
}
use tokenzy.Db.Otps.Writes.{generate_otp-rows, validate_otp-rows, revoke_otp-rows}
use tokenzy.Db.Otps.Trace.{
  OtpCall, generate, validate, revoke, delete, sweep, step, run, IsRising, end_time,
}

-- The codes that are outstanding for an address at a time.
abbrev pub live_codes : ℕ → ℕ → Str → Str → List Otp → ℕ
live_codes ts env otp_type identifier rows =
    count_where (outstanding ts env otp_type identifier) rows

abbrev pub AtMostOneLive : ℕ → List Otp → Type 0
AtMostOneLive ts rows =
    (env : ℕ) (otp_type identifier : Str) → live_codes ts env otp_type identifier rows ≤ 1

-- Codes only die as time passes.
pub outstanding_earlier :
    (now ts env : ℕ) (otp_type identifier : Str) (o : Otp)
    → now ≤ ts
    → outstanding ts env otp_type identifier o ≡ true
    → outstanding now env otp_type identifier o ≡ true
unfolding outstanding
outstanding_earlier now ts env otp_type identifier o h k = ground arith

AtMostOneLive-later :
    (now ts : ℕ) (rows : List Otp) → now ≤ ts → AtMostOneLive now rows → AtMostOneLive ts rows
AtMostOneLive-later now ts rows h l env otp_type identifier = omega (
  arith,
  l env otp_type identifier,
  count-weaker (outstanding ts env otp_type identifier) (outstanding now env otp_type identifier)
      rows (λ o. outstanding_earlier now ts env otp_type identifier o h),
)

insert_row-head : (o : Otp) (rows : List Otp) → head? (insert_row position o rows) ≢ none
unfolding insert_row
insert_row-head o [] h = absurd (cc)
insert_row-head o (b ∷ rows) h = ground arith

pub order_rows-none : (rows : List Otp) → head? (order_rows position rows) ≡ none → rows ≡ []
unfolding order_rows
order_rows-none [] h = refl
order_rows-none (o ∷ rows) h = absurd (insert_row-head o (order_rows position rows) h)

-- Where the SELECT of `GenerateOTP` finds no code, none is outstanding.
pub existing-none :
    (ts env : ℕ) (req : OtpRequest) (d : Database)
    → existing ts env req d ≡ none
    → live_codes ts env req.otp_type req.identifier d.otps ≡ 0
existing-none ts env req d h =
    sym (length-select (outstanding ts env req.otp_type req.identifier) d.otps)
    ∙ ap length (order_rows-none _ h)

new_otp-live :
    (ts env : ℕ) (id : Str) (req : OtpRequest) (e : ℕ) (otp_type identifier : Str)
    → outstanding ts e otp_type identifier (new_otp ts env id req) ≡ true
    → (e ≡ env) × (otp_type ≡ req.otp_type) × (identifier ≡ req.identifier)
unfolding outstanding
new_otp-live ts env id req e otp_type identifier h =
    ground (arith, str_eq-eq req.otp_type otp_type, str_eq-eq req.identifier identifier)

-- A fresh code is the only one outstanding for its address, and none elsewhere.
live-new :
    (ts env : ℕ) (id : Str) (req : OtpRequest) (d : Database)
    → existing ts env req d ≡ none
    → AtMostOneLive ts d.otps
    → AtMostOneLive ts (d.otps ++ new_otp ts env id req ∷ [])
live-new ts env id req d e l env' t i =
    rw (count-append (outstanding ts env' t i) d.otps (new_otp ts env id req ∷ []))
      (elim (Bool-cases (outstanding ts env' t i (new_otp ts env id req))) [
        | inl h ↦
            let (a, b, c) = new_otp-live ts env id req env' t i h in
            unfold count_where in
            rw h (rw a (rw b (rw c (omega (arith, existing-none ts env req d e)))))
        | inr h ↦ unfold count_where in rw h (omega (arith, l env' t i))
      ])

fewer :
    (ts : ℕ) (rows rows' : List Otp)
    → ((env : ℕ) (t i : Str) → live_codes ts env t i rows' ≤ live_codes ts env t i rows)
    → AtMostOneLive ts rows
    → AtMostOneLive ts rows'
fewer ts rows rows' h l env t i = omega (arith, h env t i, l env t i)

-- Each call keeps it.
step-AtMostOneLive :
    (ts : ℕ) (c : OtpCall) (d : Database)
    → AtMostOneLive ts d.otps
    → AtMostOneLive ts (step ts c d).otps
unfolding step
step-AtMostOneLive ts (generate env id req) d l =
    generate_otp-rows (AtMostOneLive ts) d l ts env id req (λ e. live-new ts env id req d e l)
step-AtMostOneLive ts (validate env t i code) d l =
    validate_otp-rows (AtMostOneLive ts) d l ts env t i code
      (fewer ts d.otps _
        (λ e t' i'.
          count-update_where (outstanding ts e t' i') (matching ts env t i code) (consume ts) d.otps
            (λ o h k. unfold outstanding matching in ground arith))
        l)
      (fewer ts d.otps _
        (λ e t' i'.
          count-update_where (outstanding ts e t' i') (outstanding ts env t i) count_attempt d.otps
            (λ o h k. unfold outstanding in ground arith))
        l)
step-AtMostOneLive ts (revoke env id) d l = revoke_otp-rows (AtMostOneLive ts) d l ts env id (
    fewer ts d.otps _
      (λ e t i.
        count-update_where (outstanding ts e t i) (revocable env id) (cancel ts) d.otps
          (λ o h k. unfold outstanding in ground arith))
      l)
step-AtMostOneLive ts (delete env id) d l =
    unfold delete_otp in
    fewer ts d.otps _ (λ e t i. count-delete_where (outstanding ts e t i) (by_id env id) d.otps) l
step-AtMostOneLive ts (sweep before limit) d l =
    unfold delete_dead_otps in
    fewer ts d.otps _
      (λ e t i. count-delete_limit (outstanding ts e t i) limit (dead before) d.otps) l

-- From a table in which no address has two codes outstanding, such as an empty one, no sequence of
-- calls under a clock that does not run backwards ever leads to one that has.
pub run-AtMostOneLive :
    (now : ℕ) (cs : List (ℕ × OtpCall)) (d : Database)
    → IsRising now cs
    → AtMostOneLive now d.otps
    → AtMostOneLive (end_time now cs) (run cs d).otps
unfolding run end_time
run-AtMostOneLive now [] d h l = l
run-AtMostOneLive now ((ts, c) ∷ cs) d h l =
    run-AtMostOneLive ts cs (step ts c d) h.1
      (step-AtMostOneLive ts c d (AtMostOneLive-later now ts d.otps h.0 l))

-- ===== src/Db/Otps/Sweep.antt =====
-- The retention sweep never changes the answer to a validation.
use tokenzy.Prelude.{ℕ, ◌≤◌, ◌≡◌, true, false, arith, ap, head?}
use tokenzy.Prelude.Str.{Str}
use tokenzy.Prelude.Table.{select_row, select-delete_limit}
use tokenzy.Prelude.Table.Disjoint.{select_row-delete_limit}
use tokenzy.Model.{Otp}
use tokenzy.Db.{Database}
use tokenzy.Db.Listing.{order_rows}
use tokenzy.Db.Otps.{
  OtpRequest, position, existing, matching, outstanding, dead, validate_otp, delete_dead_otps,
}

pub answer :
    (ts env : ℕ) (t i code : Str) (d e : Database)
    → select_row (matching ts env t i code) e.otps ≡ select_row (matching ts env t i code) d.otps
    → (validate_otp ts env t i code e).0 ≡ (validate_otp ts env t i code d).0
unfolding validate_otp
answer ts env t i code d e h = ground arith

dead-matching :
    (ts env before : ℕ) (t i code : Str) (o : Otp)
    → before ≤ ts
    → dead before o ≡ true
    → matching ts env t i code o ≡ false
unfolding matching dead
dead-matching ts env before t i code o h k = ground arith

outstanding_kept :
    (ts env before : ℕ) (t i : Str) (o : Otp)
    → before ≤ ts
    → outstanding ts env t i o ≡ true
    → dead before o ≡ false
unfolding outstanding dead
outstanding_kept ts env before t i o h k = ground arith

-- A sweep of dead codes, up to any horizon that is not in the future, leaves the answer to every
-- later validation as it was, and the code that a later request would find outstanding.
pub validate_otp-after_sweep :
    (ts env before limit : ℕ) (t i code : Str) (req : OtpRequest) (d : Database)
    → before ≤ ts
    → ((validate_otp ts env t i code (delete_dead_otps before limit d).1).0
        ≡ (validate_otp ts env t i code d).0)
      × (existing ts env req (delete_dead_otps before limit d).1 ≡ existing ts env req d)
unfolding delete_dead_otps
validate_otp-after_sweep ts env before limit t i code req d h = (
  answer ts env t i code d _ (
      select_row-delete_limit (matching ts env t i code) limit (dead before) d.otps
        (λ o. dead-matching ts env before t i code o h)),
  ap (λ rows. head? (order_rows position rows))
      (select-delete_limit limit (dead before) (outstanding ts env req.otp_type req.identifier)
        d.otps (λ o. outstanding_kept ts env before req.otp_type req.identifier o h)),
)

-- ===== src/Db/Otps/Validate.antt =====
-- `ValidateOTP` against the derived status, on every branch.
use tokenzy.Prelude.{ℕ, ◌+◌, ◌≡◌, Bool, ◌&&◌, ◌⊎◌, inl, inr, none, some, [], arith, Option-cases}
use mathlib.Core.Path.{fun_ext}
use tokenzy.Prelude.Str.{Str, str_eq}
use tokenzy.Prelude.Table.{select_row, update_where}
use tokenzy.Model.{Otp}
use tokenzy.Otp.{active, status_of}
use tokenzy.Db.{Database, Result, ok, err, not_found}
use tokenzy.Db.Otps.{addressed, matching, outstanding, scan_otp, validate_otp}

abbrev is_active : ℕ → Otp → Bool
is_active now o = elim (status_of o now) [ active ↦ Bool.true | _ ↦ Bool.false ]

-- The codes that may be validated for an address, by the Go code's own notion of an active code.
abbrev pub candidate : ℕ → ℕ → Str → Str → Otp → Bool
candidate now env otp_type identifier o = addressed env otp_type identifier o && is_active now o

abbrev pub right_code : ℕ → ℕ → Str → Str → Str → Otp → Bool
right_code now env otp_type identifier code o =
    candidate now env otp_type identifier o && str_eq o.code code

outstanding-candidate :
    (now env : ℕ) (t i : Str) (o : Otp) → outstanding now env t i o ≡ candidate now env t i o
unfolding outstanding status_of
outstanding-candidate now env t i o = ground arith

matching-right_code :
    (now env : ℕ) (t i code : Str) (o : Otp)
    → matching now env t i code o ≡ right_code now env t i code o
unfolding matching status_of
matching-right_code now env t i code o = ground arith

abbrev pub Outcome : ℕ → ℕ → Str → Str → Str → Database → Result Otp × Database → Type 0
Outcome now env t i code d r =
    ((select_row (right_code now env t i code) d.otps ≡ none)
      × (r ≡ (
        err not_found,
        record d {
          otps =
              update_where (candidate now env t i)
                (λ o. record o { attempt_count = o.attempt_count + 1 }) d.otps;
        },
      )))
    ⊎ ((o : Otp) × (select_row (right_code now env t i code) d.otps ≡ some o)
        × (r ≡ (
          ok (record o { code = []; consumed_at = some now }),
          record d {
            otps =
                update_where (right_code now env t i code)
                  (λ o. record o { consumed_at = some now }) d.otps;
          },
        )))

-- A validation is accepted exactly when some code of the address is active and equal to the text
-- that was sent; that code is then spent, once, and returned without its digits. Otherwise the
-- answer is "not found", whatever the reason, and every active code of the address has one more
-- attempt counted; all other rows stay as they are.
pub validate_otp-Outcome :
    (now env : ℕ) (t i code : Str) (d : Database)
    → Outcome now env t i code d (validate_otp now env t i code d)
unfolding validate_otp scan_otp
validate_otp-Outcome now env t i code d = rw (← fun_ext (outstanding-candidate now env t i)) (
    rw (← fun_ext (matching-right_code now env t i code))
      (elim (Option-cases (select_row (matching now env t i code) d.otps)) [
        | inl e ↦ inl (e, rw (e, validate_otp))
        | inr (o, e) ↦ inr (o, e, rw (e, validate_otp))
      ]))

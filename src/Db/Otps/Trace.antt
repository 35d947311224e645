-- ===== src/Db/Otps/Trace.antt =====
-- Sequences of calls on the table of one-time codes, each at its own time, in the order in which the
-- single write connection takes them.
use tokenzy.Prelude.{ℕ, ◌≤◌, List, [], ◌∷◌}
use tokenzy.Prelude.Str.{Str}
use tokenzy.Db.{Database}
use tokenzy.Db.Otps.{
  OtpRequest, generate_otp, validate_otp, revoke_otp, delete_otp, delete_dead_otps,
}

pub data OtpCall : Type 0 where
  generate : ℕ → Str → OtpRequest → OtpCall
  validate : ℕ → Str → Str → Str → OtpCall
  revoke delete : ℕ → Str → OtpCall
  sweep : ℕ → ℕ → OtpCall

unfoldable pub step : ℕ → OtpCall → Database → Database
step ts (generate env id req) d = (generate_otp ts env id req d).1
step ts (validate env otp_type identifier code) d =
    (validate_otp ts env otp_type identifier code d).1
step ts (revoke env id) d = (revoke_otp ts env id d).1
step ts (delete env id) d = (delete_otp env id d).1
step ts (sweep before limit) d = (delete_dead_otps before limit d).1

unfoldable pub run : List (ℕ × OtpCall) → Database → Database
run [] d = d
run ((ts, c) ∷ cs) d = run cs (step ts c d)

-- The clock does not run backwards: every call is at the time of the one before it or later.
abbrev pub IsRising : ℕ → List (ℕ × OtpCall) → Type 0
IsRising now [] = Unit
IsRising now ((ts, c) ∷ cs) = (now ≤ ts) × IsRising ts cs

-- The time of the last call.
unfoldable pub end_time : ℕ → List (ℕ × OtpCall) → ℕ
end_time now [] = now
end_time now ((ts, c) ∷ cs) = end_time ts cs

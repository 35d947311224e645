-- ===== src/Db/Otps/Quiet.antt =====
-- An address stays without an outstanding code until one is requested for it.
use tokenzy.Prelude.{ℕ, ◌≤◌, ◌≡◌, false, ◌&&◌, List, [], ◌∷◌, arith, All, ◌==◌}
use tokenzy.Prelude.Str.{Str, str_eq}
use tokenzy.Prelude.Table.{count_where}
use tokenzy.Prelude.Table.Counts.{
  count-append, count-weaker, count-update_where, count-delete_where, count-delete_limit,
}
use tokenzy.Model.{Otp}
use tokenzy.Db.{Database}
use tokenzy.Db.Otps.{
  OtpRequest, new_otp, matching, outstanding, consume, count_attempt, revocable, cancel, by_id,
  dead, delete_otp, delete_dead_otps,
}
use tokenzy.Db.Otps.Writes.{generate_otp-rows, validate_otp-rows, revoke_otp-rows}
use tokenzy.Db.Otps.Trace.{
  OtpCall, generate, validate, revoke, delete, sweep, step, run, IsRising, end_time,
}
use tokenzy.Db.Otps.Unique.{live_codes, outstanding_earlier}

module _ (env : ℕ) (otp_type identifier : Str) where
  -- The call requests no code for the address.
  abbrev pub AsksElsewhere : OtpCall → Type 0
  AsksElsewhere (generate e id req) =
      (e == env && (str_eq req.otp_type otp_type && str_eq req.identifier identifier)) ≡ false
  AsksElsewhere _ = Unit

  new_otp-elsewhere :
      (ts e : ℕ) (id : Str) (req : OtpRequest)
      → AsksElsewhere (generate e id req)
      → outstanding ts env otp_type identifier (new_otp ts e id req) ≡ false
  unfolding outstanding
  new_otp-elsewhere ts e id req h = ground arith

  abbrev live : ℕ → List Otp → ℕ
  live ts rows = live_codes ts env otp_type identifier rows

  step-live :
      (ts : ℕ) (c : OtpCall) (d : Database)
      → AsksElsewhere c
      → live ts (step ts c d).otps ≤ live ts d.otps
  unfolding step
  step-live ts (generate e id req) d h =
      generate_otp-rows (λ rows. live ts rows ≤ live ts d.otps) d (omega arith) ts e id req
        (λ _.
          rw
            (count-append (outstanding ts env otp_type identifier) d.otps
              (new_otp ts e id req ∷ []))
            (unfold count_where in rw (new_otp-elsewhere ts e id req h) (omega arith)))
  step-live ts (validate e t i code) d h =
      validate_otp-rows (λ rows. live ts rows ≤ live ts d.otps) d (omega arith) ts e t i code
        (count-update_where (outstanding ts env otp_type identifier) (matching ts e t i code)
          (consume ts) d.otps (λ o k q. unfold outstanding matching in ground arith))
        (count-update_where (outstanding ts env otp_type identifier) (outstanding ts e t i)
          count_attempt d.otps (λ o k q. unfold outstanding in ground arith))
  step-live ts (revoke e id) d h =
      revoke_otp-rows (λ rows. live ts rows ≤ live ts d.otps) d (omega arith) ts e id
        (count-update_where (outstanding ts env otp_type identifier) (revocable e id) (cancel ts)
          d.otps (λ o k q. unfold outstanding in ground arith))
  step-live ts (delete e id) d h =
      unfold delete_otp in
      count-delete_where (outstanding ts env otp_type identifier) (by_id e id) d.otps
  step-live ts (sweep before limit) d h =
      unfold delete_dead_otps in
      count-delete_limit (outstanding ts env otp_type identifier) limit (dead before) d.otps

  live-later : (now ts : ℕ) (rows : List Otp) → now ≤ ts → live now rows ≡ 0 → live ts rows ≡ 0
  live-later now ts rows h l = omega (
    arith,
    l,
    count-weaker (outstanding ts env otp_type identifier) (outstanding now env otp_type identifier)
        rows (λ o. outstanding_earlier now ts env otp_type identifier o h),
  )

  -- No calls but a request for the address lead to an outstanding code of it.
  pub run-live :
      (now later : ℕ) (cs : List (ℕ × OtpCall)) (d : Database)
      → IsRising now cs
      → end_time now cs ≤ later
      → All (λ c. AsksElsewhere c.1) cs
      → live now d.otps ≡ 0
      → live later (run cs d).otps ≡ 0
  unfolding run end_time
  run-live now later [] d r e o l = live-later now later d.otps e l
  run-live now later ((ts, c) ∷ cs) d r e o l =
      run-live ts later cs (step ts c d) r.1 e o.1
        (omega (arith, step-live ts c d o.0, live-later now ts d.otps r.0 l))

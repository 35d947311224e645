-- ===== src/Db/Otps/Writes.antt =====
-- What each query leaves in the table of one-time codes: one rule for each, over any predicate on
-- the rows.
use tokenzy.Prelude.{
  ℕ, ◌≡◌, inl, inr, none, List, [], ◌∷◌, ◌++◌, Bool-cases, Option-cases, not, is_some, ◌||◌,
}
use tokenzy.Prelude.Str.{Str}
use tokenzy.Prelude.Table.{select_row, update_where}
use tokenzy.Model.{Otp}
use tokenzy.Db.{Database}
use tokenzy.Db.Otps.{
  OtpRequest, id_is, env_exists, new_otp, existing, insert_otp, otp_code_tx, generate_otp, matching,
  outstanding, consume, count_attempt, validate_otp, revocable, cancel, revoke_otp,
}

module _ {ℓ} (P : List Otp → Type ℓ) (d : Database) (keep : P d.otps) where
  insert_otp-rows :
      (ts env : ℕ) (id : Str) (req : OtpRequest)
      → P (d.otps ++ new_otp ts env id req ∷ [])
      → P (insert_otp ts env id req d).1.otps
  unfolding insert_otp
  insert_otp-rows ts env id req h =
      elim (Bool-cases
        (is_some (select_row (id_is id) d.otps) || not (env_exists env d.environments))) [
          | inl e ↦ rw (e, insert_otp) keep
          | inr e ↦ rw (e, insert_otp) h
        ]

  pub generate_otp-rows :
      (ts env : ℕ) (id : Str) (req : OtpRequest)
      → (existing ts env req d ≡ none → P (d.otps ++ new_otp ts env id req ∷ []))
      → P (generate_otp ts env id req d).1.otps
  unfolding generate_otp
  generate_otp-rows ts env id req h = elim (Option-cases (existing ts env req d)) [
    | inl e ↦ rw (e, generate_otp) (insert_otp-rows ts env id req (h e))
    | inr (o, e) ↦ elim (Option-cases (otp_code_tx o.id d.otps)) [
      | inl f ↦ rw (e, generate_otp) (rw f keep)
      | inr (code, f) ↦ rw (e, generate_otp) (rw f keep)
    ]
  ]

  pub validate_otp-rows :
      (ts env : ℕ) (otp_type identifier code : Str)
      → P (update_where (matching ts env otp_type identifier code) (consume ts) d.otps)
      → P (update_where (outstanding ts env otp_type identifier) count_attempt d.otps)
      → P (validate_otp ts env otp_type identifier code d).1.otps
  unfolding validate_otp
  validate_otp-rows ts env otp_type identifier code h k =
      elim (Option-cases (select_row (matching ts env otp_type identifier code) d.otps)) [
        | inl e ↦ rw (e, validate_otp) k
        | inr (o, e) ↦ rw (e, validate_otp) h
      ]

  pub revoke_otp-rows :
      (ts env : ℕ) (id : Str)
      → P (update_where (revocable env id) (cancel ts) d.otps)
      → P (revoke_otp ts env id d).1.otps
  unfolding revoke_otp
  revoke_otp-rows ts env id h = elim (Option-cases (select_row (revocable env id) d.otps)) [
    | inl e ↦ rw (e, revoke_otp) keep
    | inr (o, e) ↦ rw (e, revoke_otp) h
  ]

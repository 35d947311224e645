-- ===== src/Db/Otps/Issue.antt =====
-- What follows the issue of a code: it is accepted once, and a request meanwhile gets the same code.
use tokenzy.Prelude.{
  ℕ, ◌≤◌, ◌<◌, ◌≡◌, refl, ap, ◌∙◌, Bool, true, false, none, some, List, [], ◌∷◌, ◌++◌, arith,
  if◌then◌else◌, All,
}
use tokenzy.Prelude.Str.{Str, str_eq_refl}
use tokenzy.Prelude.Table.{select_row, count_where, update_where}
use tokenzy.Prelude.Table.Counts.{count-append, count-weaker, count-update_where}
use tokenzy.Model.{Otp}
use tokenzy.Db.{Database, ok, err, not_found}
use tokenzy.Db.Otps.{
  OtpRequest, id_is, new_otp, existing, env_exists, insert_otp, generate_otp, matching, outstanding,
  scan_otp, consume, validate_otp,
}
use tokenzy.Db.Otps.Trace.{OtpCall, run, IsRising, end_time}
use tokenzy.Db.Otps.Quiet.{AsksElsewhere, run-live}
use tokenzy.Db.Otps.Unique.{live_codes, existing-none, outstanding_earlier}

module _ {ℓ} {A : Type ℓ} where
  select_row-absent :
      (p q : A → Bool) (xs : List A)
      → ((x : A) → p x ≡ true → q x ≡ true)
      → count_where q xs ≡ 0
      → select_row p xs ≡ none
  unfolding select_row count_where
  select_row-absent p q [] h c = refl
  select_row-absent p q (x ∷ xs) h c = ground (arith, h x, select_row-absent p q xs h)

  select_row-append :
      (p : A → Bool) (xs ys : List A)
      → select_row p xs ≡ none
      → select_row p (xs ++ ys) ≡ select_row p ys
  unfolding select_row
  select_row-append p [] ys h = refl
  select_row-append p (x ∷ xs) ys h = ground (arith, select_row-append p xs ys)

  update_where-append :
      (p : A → Bool) (f : A → A) (xs ys : List A)
      → update_where p f (xs ++ ys) ≡ update_where p f xs ++ update_where p f ys
  unfolding update_where
  update_where-append p f [] ys = refl
  update_where-append p f (x ∷ xs) ys =
      ap (◌∷◌ (if p x then f x else x)) (update_where-append p f xs ys)

matching-outstanding :
    (ts env : ℕ) (t i code : Str) (o : Otp)
    → matching ts env t i code o ≡ true
    → outstanding ts env t i o ≡ true
unfolding matching outstanding
matching-outstanding ts env t i code o h = ground arith

validate-none :
    (ts env : ℕ) (t i code : Str) (d : Database)
    → live_codes ts env t i d.otps ≡ 0
    → (validate_otp ts env t i code d).0 ≡ err not_found
unfolding validate_otp
validate-none ts env t i code d h = ground (
  arith,
  select_row-absent (matching ts env t i code) (outstanding ts env t i) d.otps
      (matching-outstanding ts env t i code) h,
)

validate-some :
    (ts env : ℕ) (t i code : Str) (d : Database) (o : Otp)
    → select_row (matching ts env t i code) d.otps ≡ some o
    → validate_otp ts env t i code d ≡ (
      ok (scan_otp (consume ts o)),
      record d { otps = update_where (matching ts env t i code) (consume ts) d.otps },
    )
unfolding validate_otp
validate-some ts env t i code d o h = rw (h, validate_otp)

insert-fresh :
    (ts env : ℕ) (id : Str) (req : OtpRequest) (d : Database)
    → existing ts env req d ≡ none
    → select_row (id_is id) d.otps ≡ none
    → env_exists env d.environments ≡ true
    → generate_otp ts env id req d ≡ (
      ok (new_otp ts env id req, false),
      record d { otps = d.otps ++ new_otp ts env id req ∷ [] },
    )
unfolding generate_otp insert_otp
insert-fresh ts env id req d e f g = rw (e, generate_otp) (rw (f, insert_otp) (rw g))

new_otp-matching :
    (ts now env : ℕ) (id : Str) (req : OtpRequest)
    → now < req.expires_at
    → 0 < req.max_attempts
    → matching now env req.otp_type req.identifier req.code (new_otp ts env id req) ≡ true
unfolding matching
new_otp-matching ts now env id req h k =
    ground (arith, str_eq_refl req.otp_type, str_eq_refl req.identifier, str_eq_refl req.code)

-- The codes that were there before stay out of play.
old-dead :
    (ts now env : ℕ) (req : OtpRequest) (d : Database)
    → existing ts env req d ≡ none
    → ts ≤ now
    → live_codes now env req.otp_type req.identifier d.otps ≡ 0
old-dead ts now env req d e h = omega (
  arith,
  existing-none ts env req d e,
  count-weaker (outstanding now env req.otp_type req.identifier)
      (outstanding ts env req.otp_type req.identifier) d.otps
      (λ o. outstanding_earlier ts now env req.otp_type req.identifier o h),
)

consumed_dead :
    (now later env : ℕ) (t i : Str) (o : Otp) → outstanding later env t i (consume now o) ≡ false
unfolding outstanding
consumed_dead now later env t i o = ground arith

spent-dead :
    (ts now later env : ℕ) (id : Str) (req : OtpRequest) (d : Database)
    → existing ts env req d ≡ none
    → ts ≤ now
    → now ≤ later
    → matching now env req.otp_type req.identifier req.code (new_otp ts env id req) ≡ true
    → live_codes later env req.otp_type req.identifier (
        update_where
          (matching now env req.otp_type req.identifier req.code)
          (consume now)
          (d.otps ++ new_otp ts env id req ∷ []))
      ≡ 0
unfolding update_where count_where
spent-dead ts now later env id req d e h k m =
    rw
      (update_where-append (matching now env req.otp_type req.identifier req.code) (consume now)
        d.otps (new_otp ts env id req ∷ []))
      (rw m (
        rw (count-append (outstanding later env req.otp_type req.identifier)) (
          rw (consumed_dead now later env req.otp_type req.identifier (new_otp ts env id req)) (
            omega (
              arith,
              old-dead ts later env req d e (omega arith),
              count-update_where (outstanding later env req.otp_type req.identifier)
                  (matching now env req.otp_type req.identifier req.code) (consume now) d.otps
                  (λ o _ q.
                    ground (arith, consumed_dead now later env req.otp_type req.identifier o)),
            )))))

new-found :
    (ts now env : ℕ) (id : Str) (req : OtpRequest) (d : Database)
    → existing ts env req d ≡ none
    → ts ≤ now
    → matching now env req.otp_type req.identifier req.code (new_otp ts env id req) ≡ true
    → select_row
        (matching now env req.otp_type req.identifier req.code)
        (d.otps ++ new_otp ts env id req ∷ [])
      ≡ some (new_otp ts env id req)
unfolding select_row
new-found ts now env id req d e h m =
    select_row-append (matching now env req.otp_type req.identifier req.code) d.otps
      (new_otp ts env id req ∷ [])
      (select_row-absent (matching now env req.otp_type req.identifier req.code)
        (outstanding now env req.otp_type req.identifier) d.otps
        (matching-outstanding now env req.otp_type req.identifier req.code)
        (old-dead ts now env req d e h))
    ∙ rw m

-- A request at a time `ts` when no code is outstanding for its address, under a new id and in an
-- environment that exists, issues the code that it carries. Validated before its expiry, with at
-- least one attempt allowed, that code is accepted, whatever codes the address had before. From then
-- on every validation for the address is answered "not found", whatever text it sends and whatever
-- calls on one-time codes come in between, failed validations among them, as long as none of these
-- requests a code for the address and the clock does not run backwards.
pub validate_otp-generate_otp :
    (ts now later env : ℕ) (id guess : Str) (req : OtpRequest) (cs : List (ℕ × OtpCall))
    (d : Database)
    → existing ts env req d ≡ none
    → select_row (id_is id) d.otps ≡ none
    → env_exists env d.environments ≡ true
    → ts ≤ now
    → now < req.expires_at
    → 0 < req.max_attempts
    → IsRising now cs
    → end_time now cs ≤ later
    → All (λ c. AsksElsewhere env req.otp_type req.identifier c.1) cs
    → let issued = generate_otp ts env id req d in
      let used = validate_otp now env req.otp_type req.identifier req.code issued.1 in
      (issued.0 ≡ ok (new_otp ts env id req, false))
      × (used.0 ≡ ok (scan_otp (consume now (new_otp ts env id req))))
      × ((validate_otp later env req.otp_type req.identifier guess (run cs used.1)).0
          ≡ err not_found)
validate_otp-generate_otp ts now later env id guess req cs d e f g h x y rising end others =
    let m = new_otp-matching ts now env id req x y in
    rw (insert-fresh ts env id req d e f g) (
      rw
        (validate-some now env req.otp_type req.identifier req.code
          (record d { otps = d.otps ++ new_otp ts env id req ∷ [] }) (new_otp ts env id req)
          (new-found ts now env id req d e h m))
        (
          refl,
          refl,
          validate-none later env req.otp_type req.identifier guess _ (
              run-live env req.otp_type req.identifier now later cs _ rising end others
                (spent-dead ts now now env id req d e h (omega arith) m)),
        ))

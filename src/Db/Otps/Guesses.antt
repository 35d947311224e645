-- ===== src/Db/Otps/Guesses.antt =====
-- How many guesses can be made at the codes of an address.
use tokenzy.Prelude.{
  ℕ, zero, suc, ◌+◌, ◌-◌, ◌≤◌, ◌≡◌, refl, Bool, true, false, some, List, [], ◌∷◌, ◌++◌, arith,
  is_some, is_none, ◌&&◌, ◌==◌, if◌then◌else◌, Bool-cases, Option-cases, inl, inr, ap, &&-left,
  &&-right,
}
use tokenzy.Prelude.Str.{Str, str_eq, str_eq-eq}
use tokenzy.Prelude.Table.{select_row, update_where, delete_where, delete_limit}
use tokenzy.Model.{Otp}
use tokenzy.Db.{Database}
use tokenzy.Db.Otps.{
  addressed, new_otp, matching, outstanding, consume, count_attempt, validate_otp, revocable,
  cancel, by_id, dead, delete_otp, delete_dead_otps,
}
use tokenzy.Db.Otps.Writes.{generate_otp-rows, revoke_otp-rows}
use tokenzy.Db.Otps.Trace.{OtpCall, generate, validate, revoke, delete, sweep, step}

module _ (env : ℕ) (otp_type identifier : Str) where
  -- The attempts that the codes of the address have left.
  abbrev pub tries_left : Otp → ℕ
  tries_left o =
      if addressed env otp_type identifier o && (is_none o.consumed_at && is_none o.revoked_at)
      then o.max_attempts - o.attempt_count
      else 0

  abbrev pub tries : List Otp → ℕ
  tries [] = 0
  tries (o ∷ rows) = tries_left o + tries rows

  -- A validation for the address that meets an outstanding code.
  abbrev pub is_guess : ℕ → OtpCall → Database → Bool
  is_guess ts (validate e t i code) d =
      (e == env && (str_eq t otp_type && str_eq i identifier))
      && is_some (select_row (outstanding ts e t i) d.otps)
  is_guess ts _ d = false

  unfoldable pub guesses : List (ℕ × OtpCall) → Database → ℕ
  guesses [] d = 0
  guesses ((ts, c) ∷ cs) d = (if is_guess ts c d then 1 else 0) + guesses cs (step ts c d)

  -- The attempts that a call may add: those of the code that it asks for at the address.
  abbrev pub asked : OtpCall → ℕ
  asked (generate e id req) =
      if e == env && (str_eq req.otp_type otp_type && str_eq req.identifier identifier)
      then req.max_attempts
      else 0
  asked _ = 0

  abbrev pub total_asked : List (ℕ × OtpCall) → ℕ
  total_asked [] = 0
  total_asked ((ts, c) ∷ cs) = asked c + total_asked cs

  tries-append : (xs ys : List Otp) → tries (xs ++ ys) ≡ tries xs + tries ys
  tries-append [] ys = omega arith
  tries-append (x ∷ xs) ys = omega (arith, tries-append xs ys)

  tries-delete_where : (p : Otp → Bool) (rows : List Otp) → tries (delete_where p rows) ≤ tries rows
  unfolding delete_where
  tries-delete_where p [] = omega arith
  tries-delete_where p (o ∷ rows) = ground (arith, tries-delete_where p rows)

  tries-delete_limit :
      (n : ℕ) (p : Otp → Bool) (rows : List Otp) → tries (delete_limit n p rows) ≤ tries rows
  unfolding delete_limit
  tries-delete_limit n p [] = omega arith
  tries-delete_limit zero p (o ∷ rows) = omega arith
  tries-delete_limit (suc n) p (o ∷ rows) =
      ground (arith, tries-delete_limit n p rows, tries-delete_limit (suc n) p rows)

  tries-update_where :
      (p : Otp → Bool) (f : Otp → Otp) (rows : List Otp)
      → ((o : Otp) → p o ≡ true → tries_left (f o) ≤ tries_left o)
      → tries (update_where p f rows) ≤ tries rows
  unfolding update_where
  tries-update_where p f [] h = omega arith
  tries-update_where p f (o ∷ rows) h = elim (Bool-cases (p o)) [
    | inl e ↦ rw e (omega (arith, h o e, tries-update_where p f rows h))
    | inr e ↦ rw e (omega (arith, tries-update_where p f rows h))
  ]

  -- An update that takes an attempt from each row it meets, and meets one.
  tries-hit :
      (p : Otp → Bool) (f : Otp → Otp) (rows : List Otp)
      → ((o : Otp) → p o ≡ true → tries_left (f o) + 1 ≤ tries_left o)
      → is_some (select_row p rows) ≡ true
      → tries (update_where p f rows) + 1 ≤ tries rows
  unfolding update_where select_row
  tries-hit p f [] h s = cc
  tries-hit p f (o ∷ rows) h s = elim (Bool-cases (p o)) [
    | inl e ↦ rw e (omega (arith, h o e, tries-update_where p f rows (λ x k. omega (arith, h x k))))
    | inr e ↦ rw e (omega (arith, tries-hit p f rows h (ground arith)))
  ]

  abbrev is_here : ℕ → Str → Str → Bool
  is_here e t i = e == env && (str_eq t otp_type && str_eq i identifier)

  at_address :
      (e : ℕ) (t i : Str)
      → (e == env && (str_eq t otp_type && str_eq i identifier)) ≡ true
      → (e ≡ env) × (t ≡ otp_type) × (i ≡ identifier)
  at_address e t i h = ground (arith, str_eq-eq t otp_type, str_eq-eq i identifier)

  consume-hit :
      (ts e : ℕ) (t i code : Str) (o : Otp)
      → is_here e t i ≡ true
      → matching ts e t i code o ≡ true
      → tries_left (consume ts o) + 1 ≤ tries_left o
  unfolding matching
  consume-hit ts e t i code o g h = ground (arith, at_address e t i g)

  count_attempt-hit :
      (ts e : ℕ) (t i : Str) (o : Otp)
      → is_here e t i ≡ true
      → outstanding ts e t i o ≡ true
      → tries_left (count_attempt o) + 1 ≤ tries_left o
  unfolding outstanding
  count_attempt-hit ts e t i o g h = ground (arith, at_address e t i g)

  at_most_one : (b : Bool) (m n : ℕ) → m ≤ n → (b ≡ true → m + 1 ≤ n) → m + (if b then 1 else 0) ≤ n
  at_most_one true m n h k = k refl
  at_most_one false m n h k = omega arith

  counted-tries :
      (ts e : ℕ) (t i : Str) (rows : List Otp)
      → tries (update_where (outstanding ts e t i) count_attempt rows)
          + (if is_here e t i && is_some (select_row (outstanding ts e t i) rows) then 1 else 0)
        ≤ tries rows
  counted-tries ts e t i rows =
      at_most_one (is_here e t i && is_some (select_row (outstanding ts e t i) rows)) _ _
        (tries-update_where (outstanding ts e t i) count_attempt rows (λ o h. ground arith))
        (λ g.
          tries-hit (outstanding ts e t i) count_attempt rows
            (λ o. count_attempt-hit ts e t i o (&&-left (is_here e t i) _ g))
            (&&-right (is_here e t i) _ g))

  consumed-tries :
      (ts e : ℕ) (t i code : Str) (rows : List Otp) (o : Otp)
      → select_row (matching ts e t i code) rows ≡ some o
      → tries (update_where (matching ts e t i code) (consume ts) rows)
          + (if is_here e t i && is_some (select_row (outstanding ts e t i) rows) then 1 else 0)
        ≤ tries rows
  consumed-tries ts e t i code rows o s =
      at_most_one (is_here e t i && is_some (select_row (outstanding ts e t i) rows)) _ _
        (tries-update_where (matching ts e t i code) (consume ts) rows (λ x h. ground arith))
        (λ g.
          tries-hit (matching ts e t i code) (consume ts) rows
            (λ x. consume-hit ts e t i code x (&&-left (is_here e t i) _ g)) (ap is_some s))

  -- Every validation leaves at most as many attempts, and one less if it was a guess.
  validated-tries :
      (ts e : ℕ) (t i code : Str) (d : Database)
      → tries (validate_otp ts e t i code d).1.otps
          + (if is_guess ts (validate e t i code) d then 1 else 0)
        ≤ tries d.otps
  unfolding validate_otp
  validated-tries ts e t i code d =
      elim (Option-cases (select_row (matching ts e t i code) d.otps)) [
        | inl h ↦ rw (h, validate_otp) (counted-tries ts e t i d.otps)
        | inr (o, h) ↦ rw (h, validate_otp) (consumed-tries ts e t i code d.otps o h)
      ]

  step-tries :
      (ts : ℕ) (c : OtpCall) (d : Database)
      → tries (step ts c d).otps + (if is_guess ts c d then 1 else 0) ≤ tries d.otps + asked c
  unfolding step
  step-tries ts (generate e id req) d =
      generate_otp-rows (λ rows. tries rows + 0 ≤ tries d.otps + asked (generate e id req)) d
        (omega arith) ts e id req
        (λ _. ground (arith, tries-append d.otps (new_otp ts e id req ∷ [])))
  step-tries ts (validate e t i code) d = omega (arith, validated-tries ts e t i code d)
  step-tries ts (revoke e id) d =
      revoke_otp-rows (λ rows. tries rows + 0 ≤ tries d.otps + 0) d (omega arith) ts e id
        (omega
          (arith, tries-update_where (revocable e id) (cancel ts) d.otps (λ o h. ground arith)))
  step-tries ts (delete e id) d =
      unfold delete_otp in omega (arith, tries-delete_where (by_id e id) d.otps)
  step-tries ts (sweep before limit) d =
      unfold delete_dead_otps in omega (arith, tries-delete_limit limit (dead before) d.otps)

  -- Over any calls, the guesses at the codes of an address are at most the attempts that its codes
  -- have left at the start and those of the codes requested for it on the way. A guess is a
  -- validation for the address at a time when a code is outstanding for it.
  pub guesses-le-tries :
      (cs : List (ℕ × OtpCall)) (d : Database) → guesses cs d ≤ tries d.otps + total_asked cs
  unfolding guesses
  guesses-le-tries [] d = omega arith
  guesses-le-tries ((ts, c) ∷ cs) d =
      omega (arith, step-tries ts c d, guesses-le-tries cs (step ts c d))

-- ===== src/Auth/Passwords/RoundTrip.antt =====
-- A hash verifies the password that it was made from.
use tokenzy.Prelude.{
  ℕ, zero, ◌%◌, ◌^◌, ◌≡◌, ◌≢◌, refl, ap, subst, ◌∙◌, Bool, true, false, not, ◌&&◌, Option, none,
  some, List, [], ◌∷◌, ◌++◌, arith, All, ◌==◌, length, if◌then◌else◌,
}
use tokenzy.Prelude.Str.{Str, codes, str_eq, str_eq_refl}
use tokenzy.Prelude.Text.{split_at}
use tokenzy.Auth.Passwords.{
  Crypto, argon_time, argon_memory, argon_threads, argon_key_len, parameters, version_field,
  hash_password, expect, digits, skip_blanks, scan_nat, scan_version, scan_params, check_parts,
  check_six, verify_password,
}

scan_version-version_field : scan_version version_field ≡ some 19
unfolding scan_version version_field expect skip_blanks scan_nat digits
    tokenzy.Prelude.Decimal.show_nat
scan_version-version_field = refl

scan_params-parameters :
    scan_params parameters
    ≡ some (record { memory = argon_memory; time = argon_time; threads = argon_threads })
unfolding scan_params parameters expect skip_blanks scan_nat digits tokenzy.Prelude.Decimal.show_nat
scan_params-parameters = refl

-- Splitting at a separator that stands in the second text only.
split_at-piece :
    (sep : ℕ) (s rest : Str)
    → All (λ (c : ℕ). (c == sep) ≡ false) s
    → split_at sep (s ++ (sep ∷ rest)) ≡ s ∷ split_at sep rest
unfolding split_at
split_at-piece sep [] rest h = ground arith
split_at-piece sep (c ∷ s) rest h = rw h.0 (rw (split_at-piece sep s rest h.1) refl)

split_at-whole :
    (sep : ℕ) (s : Str) → All (λ (c : ℕ). (c == sep) ≡ false) s → split_at sep s ≡ s ∷ []
unfolding split_at
split_at-whole sep [] h = refl
split_at-whole sep (c ∷ s) h = rw h.0 (rw (split_at-whole sep s h.1) refl)

-- What is documented of base64 and argon2: decoding undoes encoding, the alphabet has no `$`, and a
-- key has the length that is asked for.
pub record IsLawful (c : Crypto) : Type 0 where
  pub decode_encode : (s : Str) → c.decode (c.encode s) ≡ some s
  pub no_dollar : (s : Str) → All (λ (b : ℕ). (b == b'$') ≡ false) (c.encode s)
  pub key_length :
      (password salt : Str) (time memory threads n : ℕ)
      → length (c.id_key password salt time memory threads n) ≡ n

abbrev pub key_of : Crypto → Str → Str → Str
key_of c password salt = c.id_key password salt argon_time argon_memory argon_threads argon_key_len

split_at-hash :
    (a b : Str)
    → All (λ (c : ℕ). (c == b'$') ≡ false) a
    → All (λ (c : ℕ). (c == b'$') ≡ false) b
    → split_at b'$'
        (codes "$argon2id$" ++ (version_field ++ (b'$' ∷ parameters ++ (b'$' ∷ a ++ (b'$' ∷ b)))))
      ≡ [] ∷ codes "argon2id" ∷ version_field ∷ parameters ∷ a ∷ b ∷ []
unfolding split_at version_field parameters tokenzy.Prelude.Decimal.show_nat
split_at-hash a b h k = rw (split_at-piece b'$' a b h) (rw (split_at-whole b'$' b k) refl)

check_parts-own :
    (c : Crypto) (password salt sum : Str)
    → IsLawful c
    → length sum ≡ argon_key_len
    → check_parts c password version_field parameters (c.encode salt) (c.encode sum)
      ≡ some (str_eq (key_of c password salt) sum)
unfolding check_parts
check_parts-own c password salt sum l n =
    rw (scan_version-version_field, check_parts)
      (rw scan_params-parameters (rw (l.decode_encode salt) (rw (l.decode_encode sum) (rw n refl))))

abbrev text_of : Crypto → Str → Str → Str
text_of c password salt =
    codes "$argon2id$"
    ++ (version_field
        ++ (b'$' ∷ parameters
            ++ (b'$' ∷ c.encode salt ++ (b'$' ∷ c.encode (key_of c password salt)))))

verify_password-text_of :
    (c : Crypto) (salt password other : Str)
    → IsLawful c
    → verify_password c other (text_of c password salt)
      ≡ some (str_eq (key_of c other salt) (key_of c password salt))
unfolding verify_password str_eq
verify_password-text_of c salt password other l =
    ap (check_six c other) (
      split_at-hash (c.encode salt) (c.encode (key_of c password salt)) (l.no_dollar salt)
        (l.no_dollar (key_of c password salt)))
    ∙ check_parts-own c other salt (key_of c password salt) l
        (l.key_length password salt argon_time argon_memory argon_threads argon_key_len)

-- The hash of a password verifies exactly the passwords that derive the same key with its salt, the
-- password itself among them, and it is never taken for malformed.
pub verify_password-hash_password :
    (c : Crypto) (salt password hash other : Str)
    → IsLawful c
    → hash_password c (some salt) password ≡ some hash
    → (verify_password c other hash ≡ some (str_eq (key_of c other salt) (key_of c password salt)))
      × (verify_password c password hash ≡ some true)
unfolding hash_password
verify_password-hash_password c salt password hash other l h =
    let e : text_of c password salt ≡ hash = cc in
    (
      subst
          (λ (t : Str).
            verify_password c other t
            ≡ some (str_eq (key_of c other salt) (key_of c password salt)))
          e (verify_password-text_of c salt password other l),
      subst (λ (t : Str). verify_password c password t ≡ some true) e
          (verify_password-text_of c salt password password l
            ∙ ap some (str_eq_refl (key_of c password salt))),
    )

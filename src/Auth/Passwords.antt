-- ===== src/Auth/Passwords.antt =====
-- internal/auth/password.go: argon2id hashes in the PHC format. The key derivation of
-- golang.org/x/crypto/argon2 and the raw base64 of the standard library are parameters; of fmt's
-- Sscanf the model has the two formats that the code uses.
pub mod RoundTrip
use tokenzy.Prelude.{
  ℕ, zero, suc, ◌+◌, ◌-◌, ◌*◌, ◌%◌, ◌^◌, Bool, true, false, not, ◌&&◌, ◌||◌, Option, none, some,
  List, [], ◌∷◌, ◌++◌, ltb, leb, ◌==◌, is_nil, length, if◌then◌else◌,
}
use tokenzy.Prelude.Str.{Str, codes, str_eq}
use tokenzy.Prelude.Text.{split_at}
use tokenzy.Prelude.Decimal.{show_nat}

-- argon2.IDKey (password, salt, time, memory, threads, length of the key) and base64.
pub record Crypto : Type 0 where
  pub id_key : Str → Str → ℕ → ℕ → ℕ → ℕ → Str
  pub encode : Str → Str
  pub decode : Str → Option Str

abbrev pub argon_time : ℕ
argon_time = 3

abbrev pub argon_memory : ℕ
argon_memory = 64 * 1024

abbrev pub argon_threads : ℕ
argon_threads = 2

abbrev pub argon_key_len : ℕ
argon_key_len = 32

-- argon2.Version
abbrev pub argon_version : ℕ
argon_version = 0x13

unfoldable pub parameters : Str
parameters =
    codes "m="
    ++ (show_nat argon_memory
        ++ (codes ",t=" ++ (show_nat argon_time ++ (codes ",p=" ++ show_nat argon_threads))))

unfoldable pub version_field : Str
version_field = codes "v=" ++ show_nat argon_version

-- `HashPassword`, on the salt, `none` where the generator fails.
unfoldable pub hash_password : Crypto → Option Str → Str → Option Str
hash_password c none password = none
hash_password c (some salt) password =
    let sum = c.id_key password salt argon_time argon_memory argon_threads argon_key_len in
    some (
      codes "$argon2id$"
      ++ (version_field ++ (b'$' ∷ parameters ++ (b'$' ∷ c.encode salt ++ (b'$' ∷ c.encode sum)))))

-- The literal text of a format, at the front of the input.
unfoldable pub expect : Str → Str → Option Str
expect [] s = some s
expect (l ∷ ls) [] = none
expect (l ∷ ls) (c ∷ s) = let rest = expect ls s in if l == c then rest else none

-- The digits in front, and what follows them.
unfoldable pub digits : Str → Str × Str
digits [] = ([], [])
digits (c ∷ s) =
    let (ds, rest) = digits s in if leb b'0' c && leb c b'9' then (c ∷ ds, rest) else ([], c ∷ s)

abbrev pub value_of : ℕ → Str → ℕ
value_of acc [] = acc
value_of acc (c ∷ s) = value_of (acc * 10 + (c - 48)) s

unfoldable pub skip_blanks : Str → Str
skip_blanks [] = []
skip_blanks (c ∷ s) = let rest = skip_blanks s in if c == b' ' || c == 9 then rest else c ∷ s

-- `%d` into an unsigned integer below the bound: blanks are passed over, there is at least one digit,
-- and an overflow is an error.
unfoldable pub scan_nat : ℕ → Str → Option (ℕ × Str)
scan_nat bound s =
    let (ds, rest) = digits (skip_blanks s) in
    if is_nil ds || not (ltb (value_of 0 ds) bound) then none else some (value_of 0 ds, rest)

abbrev after_plus : Str → Str
after_plus [] = []
after_plus (c ∷ s) = if c == b'+' then s else c ∷ s

-- The version: Sscanf with "v=%d"; a sign in front of it leads to a version that is refused or, for
-- `+`, to the same number. What follows the number is not looked at.
unfoldable pub scan_version : Str → Option ℕ
scan_version s = elim (expect (codes "v=") s) [
  | none ↦ none
  | some r ↦ elim (scan_nat (2 ^ 63) (after_plus (skip_blanks r))) [
    | none ↦ none
    | some (n, rest) ↦ some n
  ]
]

pub record Params : Type 0 where
  pub memory : ℕ
  pub time : ℕ
  pub threads : ℕ

-- Sscanf with "m=%d,t=%d,p=%d" into two uint32 and a uint8.
unfoldable pub scan_params : Str → Option Params
scan_params s = elim (expect (codes "m=") s) [
  | none ↦ none
  | some a ↦ elim (scan_nat (2 ^ 32) a) [
    | none ↦ none
    | some (memory, b) ↦ elim (expect (codes ",t=") b) [
      | none ↦ none
      | some c ↦ elim (scan_nat (2 ^ 32) c) [
        | none ↦ none
        | some (time, d) ↦ elim (expect (codes ",p=") d) [
          | none ↦ none
          | some e ↦ elim (scan_nat (2 ^ 8) e) [
            | none ↦ none
            | some (threads, rest) ↦
                some (record { memory = memory; time = time; threads = threads })
          ]
        ]
      ]
    ]
  ]
]

-- The comparison behind a hash whose six parts have been told apart.
unfoldable pub check_parts : Crypto → Str → Str → Str → Str → Str → Option Bool
check_parts c password version params salt_text hash_text = elim (scan_version version) [
  | none ↦ none
  | some v ↦ if not (v == argon_version) then none else elim (scan_params params) [
    | none ↦ none
    | some p ↦ elim (c.decode salt_text) [
      | none ↦ none
      | some salt ↦ elim (c.decode hash_text) [
        | none ↦ none
        | some want ↦
            some (
              str_eq (c.id_key password salt p.time p.memory p.threads (length want % 2 ^ 32)) want)
      ]
    ]
  ]
]

abbrev pub check_six : Crypto → Str → List Str → Option Bool
check_six c password (empty ∷ kind ∷ version ∷ params ∷ salt ∷ hash ∷ []) =
    if str_eq kind (codes "argon2id") then check_parts c password version params salt hash else none
check_six c password _ = none

-- `VerifyPassword`; `none` is ErrInvalidHash.
unfoldable pub verify_password : Crypto → Str → Str → Option Bool
verify_password c password encoded = check_six c password (split_at b'$' encoded)

-- ===== src/Db/Otps/Filter.antt =====
-- The listings of internal/db/otps.go: the filter with its LIKE pattern, and the types in use.
use tokenzy.Prelude.{
  ℕ, ◌+◌, Bool, false, ◌&&◌, ◌||◌, Option, List, [], ◌∷◌, ◌++◌, map, ◌==◌, is_nil, leb,
  if◌then◌else◌,
}
use tokenzy.Prelude.Int.{ℤ}
use tokenzy.Prelude.Str.{Str, str_eq, str_lt}
use tokenzy.Model.{Otp}
use tokenzy.Otp.{Status}
use tokenzy.Db.{Database}
use tokenzy.Db.Listing.{Cursor, page}
use tokenzy.Db.Otps.{scan_otp, position, otp_status_predicate}

-- The limit and the cursor of `OTPFilter` are arguments of their own.
pub record OtpFilter : Type 0 where
  pub status : Option Status
  pub otp_type : Str
  pub identifier : Str

-- `escapeLike`: a backslash before each backslash, percent sign and underscore.
unfoldable pub escape_like : Str → Str
escape_like [] = []
escape_like (c ∷ s) =
    if c == 92 || (c == b'%' || c == b'_') then 92 ∷ c ∷ escape_like s else c ∷ escape_like s

-- SQLite compares the ASCII letters without their case.
unfoldable pub fold_case : ℕ → ℕ
fold_case c = if leb 65 c && leb c 90 then c + 32 else c

-- A pattern of LIKE with ESCAPE '\', where `%` is any text and `_` any one byte; an escape at the
-- very end matches nothing.
pub data Item : Type 0 where
  any_text any_one nothing : Item
  lit : ℕ → Item

unfoldable pub item_of : ℕ → Item
item_of c = if c == b'%' then any_text else if c == b'_' then any_one else lit c

unfoldable pub items : Str → List Item
items [] = []
items (c ∷ []) = if c == 92 then nothing ∷ [] else item_of c ∷ []
items (c ∷ d ∷ s) =
    let escaped = items s in
    let plain = items (d ∷ s) in if c == 92 then lit d ∷ escaped else item_of c ∷ plain

unfoldable pub matches : List Item → Str → Bool
matches [] text = is_nil text
matches (any_text ∷ is) [] = matches is []
matches (any_text ∷ is) (t ∷ text) = matches is (t ∷ text) || matches (any_text ∷ is) text
matches (any_one ∷ is) [] = false
matches (any_one ∷ is) (t ∷ text) = matches is text
matches (nothing ∷ is) text = false
matches (lit c ∷ is) [] = false
matches (lit c ∷ is) (t ∷ text) = fold_case c == fold_case t && matches is text

-- SQLite reads a text up to its first zero byte.
unfoldable pub up_to_nul : Str → Str
up_to_nul [] = []
up_to_nul (c ∷ s) = let rest = up_to_nul s in if c == 0 then [] else c ∷ rest

-- `pattern` and `text` are in UTF-8, where one byte matches as one character does; SQLite reads other
-- bytes as replacement characters, which is not modelled.
unfoldable pub like : Str → Str → Bool
like pattern text = matches (items (up_to_nul pattern)) (up_to_nul text)

-- An empty filter field is no condition.
abbrev pub filtered : ℕ → ℕ → OtpFilter → Otp → Bool
filtered ts env f o =
    o.environment_id == env
    && (otp_status_predicate f.status ts o
        && ((is_nil f.otp_type || str_eq o.otp_type f.otp_type)
            && (is_nil f.identifier
                || like (b'%' ∷ (escape_like f.identifier ++ (b'%' ∷ []))) o.identifier)))

unfoldable pub list_otps : ℕ → ℕ → OtpFilter → ℤ → Cursor → Database → List Otp × Cursor
list_otps ts env f limit cursor d =
    let (rows, next) = page position (filtered ts env f) limit cursor d.otps in
    (map scan_otp rows, next)

-- SELECT DISTINCT type … ORDER BY type ASC
unfoldable pub insert_type : Str → List Str → List Str
insert_type t [] = t ∷ []
insert_type t (u ∷ us) =
    let rest = insert_type t us in
    if str_eq t u then u ∷ us else if str_lt u t then u ∷ rest else t ∷ u ∷ us

unfoldable pub list_otp_types : ℕ → List Otp → List Str
list_otp_types env [] = []
list_otp_types env (o ∷ os) =
    let rest = list_otp_types env os in
    if o.environment_id == env then insert_type o.otp_type rest else rest

-- ===== src/Webhook/Headers.antt =====
-- The "Name: value" lines of a webhook's own headers (internal/webhook/dispatch.go).
pub mod Laws
use tokenzy.Prelude.{
  ℕ, zero, suc, ◌+◌, Bool, true, false, not, ◌&&◌, ◌||◌, Option, none, some, List, [], ◌∷◌, leb,
  ◌==◌, is_nil, if◌then◌else◌,
}
use tokenzy.Prelude.Str.{Str, codes, str_eq}
use tokenzy.Prelude.Text.{trim_space, split_at, cut}

-- `reservedHeaders`
abbrev pub reserved_headers : List Str
reserved_headers =
    codes "Content-Type"
    ∷ codes "X-Webhook-Id"
    ∷ codes "X-Webhook-Event"
    ∷ codes "X-Webhook-Attempt"
    ∷ codes "X-Webhook-Signature"
    ∷ []

abbrev pub lower : ℕ → ℕ
lower c = if leb 65 c && leb c 90 then c + 32 else c

-- strings.EqualFold, where the second text is ASCII without the letters k and s, which alone fold
-- with a character outside ASCII: the reserved names that hold neither, and for the others a first
-- text that is ASCII, as `valid_header_name` has made sure.
unfoldable pub equal_fold : Str → Str → Bool
equal_fold [] [] = true
equal_fold [] (b ∷ t) = false
equal_fold (a ∷ s) [] = false
equal_fold (a ∷ s) (b ∷ t) = lower a == lower b && equal_fold s t

unfoldable pub reserved_in : List Str → Str → Bool
reserved_in [] name = false
reserved_in (r ∷ rs) name = if equal_fold name r then true else reserved_in rs name

unfoldable pub reserved_header : Str → Bool
reserved_header name = reserved_in reserved_headers name

-- Letters, digits, and `-`, `_`, `.`
unfoldable pub header_byte : ℕ → Bool
header_byte c =
    (leb b'a' c && leb c b'z')
    || ((leb b'A' c && leb c b'Z')
        || ((leb b'0' c && leb c b'9') || (c == b'-' || (c == b'_' || c == b'.'))))

unfoldable pub all_header_bytes : Str → Bool
all_header_bytes [] = true
all_header_bytes (c ∷ s) = if header_byte c then all_header_bytes s else false

-- `validHeaderName`
unfoldable pub valid_header_name : Str → Bool
valid_header_name name = all_header_bytes name && not (is_nil name)

-- strings.ContainsAny(value, "\r\n")
unfoldable pub has_line_break : Str → Bool
has_line_break [] = false
has_line_break (c ∷ s) = if c == 13 || c == 10 then true else has_line_break s

-- A map assignment: the entry of the key is replaced, or added.
unfoldable pub assign : Str → Str → List (Str × Str) → List (Str × Str)
assign name value [] = (name, value) ∷ []
assign name value ((k, v) ∷ m) =
    let rest = assign name value m in if str_eq k name then (k, value) ∷ m else (k, v) ∷ rest

-- The errors, each with the number of the line.
pub data HeaderError : Type 0 where
  expected_pair empty_name invalid_name reserved_name line_break : ℕ → HeaderError

pub data Parsed : Type 0 where
  ok : List (Str × Str) → Parsed
  err : HeaderError → Parsed

-- One line that is not blank: its error, or the name and the value.
pub data Line : Type 0 where
  pair : Str → Str → Line
  bad : HeaderError → Line

unfoldable pub parse_line : ℕ → Str → Line
parse_line i line = elim (cut b':' line) [
  | none ↦ bad (expected_pair i)
  | some (before, after) ↦
      let name = trim_space before in
      let value = trim_space after in
      if is_nil name
      then bad (empty_name i)
      else if not (valid_header_name name)
      then bad (invalid_name i)
      else if reserved_header name
      then bad (reserved_name i)
      else if has_line_break value
      then bad (line_break i)
      else pair name value
]

-- The loop over the lines, the first of which has the number i.
unfoldable pub parse_lines : ℕ → List Str → List (Str × Str) → Parsed
parse_lines i [] headers = ok headers
parse_lines i (l ∷ ls) headers =
    if is_nil (trim_space l)
    then parse_lines (suc i) ls headers
    else elim (parse_line i (trim_space l)) [
      | bad e ↦ err e
      | pair name value ↦ parse_lines (suc i) ls (assign name value headers)
    ]

unfoldable pub parse_headers : Str → Parsed
parse_headers raw = parse_lines 1 (split_at 10 raw) []

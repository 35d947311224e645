-- ===== src/Webhook/Headers/Laws.antt =====
-- What a parsed header map holds.
use tokenzy.Prelude.{
  ℕ, ◌+◌, ◌≤◌, ◌≢◌, map, ltb, ◌&&◌, ◌||◌, ◌==◌, if◌then◌else◌, suc, ◌≡◌, refl, sym, subst, true,
  false, List, [], ◌∷◌, arith, is_nil, All, Bool-cases, inl, inr, ◌⊎◌,
}
use tokenzy.Prelude.Str.{Str, codes, str_eq, str_eq-eq}
use tokenzy.Prelude.Text.{trim_space, split_at}
use tokenzy.Webhook.Headers.{
  reserved_headers, reserved_in, equal_fold, header_byte, all_header_bytes, reserved_header,
  valid_header_name, has_line_break, assign, ok, HeaderError, Line, pair, bad, parse_line,
  parse_lines, parse_headers,
}

-- A letter, a digit, or one of `-`, `.` and `_`.
abbrev pub IsNameByte : ℕ → Type 0
IsNameByte c =
    ((97 ≤ c) × (c ≤ 122))
    ⊎ ((65 ≤ c) × (c ≤ 90))
    ⊎ ((48 ≤ c) × (c ≤ 57))
    ⊎ (c ≡ 45)
    ⊎ (c ≡ 46)
    ⊎ (c ≡ 95)

-- The text with its capitals of ASCII in lower case.
abbrev pub lower_case : Str → Str
lower_case = map (λ c. if ltb 64 c && ltb c 91 then c + 32 else c)

-- Read in lower case, the text is none of these.
abbrev pub IsNoneOf : List Str → Str → Type 0
IsNoneOf names s = All (λ r. lower_case s ≢ r) names

-- A name of such bytes that is no reserved one in any mixture of cases, and a value on one line.
abbrev pub IsSafe : Str × Str → Type 0
IsSafe (name, value) =
    (name ≢ [])
    × All IsNameByte name
    × IsNoneOf
        (codes "content-type"
          ∷ codes "x-webhook-id"
          ∷ codes "x-webhook-event"
          ∷ codes "x-webhook-attempt"
          ∷ codes "x-webhook-signature"
          ∷ [])
        name
    × All (λ c. (c ≢ 10) × (c ≢ 13)) value

header_byte-IsNameByte : (c : ℕ) → header_byte c ≡ true → IsNameByte c
unfolding header_byte
header_byte-IsNameByte c h = ground arith

all_header_bytes-All : (s : Str) → all_header_bytes s ≡ true → All IsNameByte s
unfolding all_header_bytes
all_header_bytes-All [] h = tt
all_header_bytes-All (c ∷ s) h = elim (Bool-cases (header_byte c)) [
  | inl e ↦ (header_byte-IsNameByte c e, all_header_bytes-All s (rw e at h))
  | inr e ↦ absurd (ground arith)
]

-- Texts that are the same in lower case are equal up to case.
equal_fold-lower_case : (s t : Str) → lower_case s ≡ lower_case t → equal_fold s t ≡ true
unfolding equal_fold
equal_fold-lower_case [] [] h = refl
equal_fold-lower_case [] (b ∷ t) h = cc
equal_fold-lower_case (a ∷ s) [] h = cc
equal_fold-lower_case (a ∷ s) (b ∷ t) h = ground (arith, equal_fold-lower_case s t)

reserved_in-IsNoneOf :
    (rs : List Str) (s : Str) → reserved_in rs s ≡ false → IsNoneOf (map lower_case rs) s
unfolding reserved_in
reserved_in-IsNoneOf [] s h = tt
reserved_in-IsNoneOf (r ∷ rs) s h = elim (Bool-cases (equal_fold s r)) [
  | inl e ↦ absurd (ground arith)
  | inr e ↦ (
    (λ same. let k = equal_fold-lower_case s r same in absurd (ground arith)),
    reserved_in-IsNoneOf rs s (rw e at h),
  )
]

has_line_break-All : (s : Str) → has_line_break s ≡ false → All (λ c. (c ≢ 10) × (c ≢ 13)) s
unfolding has_line_break
has_line_break-All [] h = tt
has_line_break-All (c ∷ s) h = elim (Bool-cases (c == 13 || c == 10)) [
  | inl e ↦ absurd (ground arith)
  | inr e ↦ (
    ((λ k. absurd (ground arith)), (λ k. absurd (ground arith))),
    has_line_break-All s (rw e at h),
  )
]

checked-IsSafe :
    (name value : Str)
    → is_nil name ≡ false
    → valid_header_name name ≡ true
    → reserved_header name ≡ false
    → has_line_break value ≡ false
    → IsSafe (name, value)
unfolding valid_header_name reserved_header
checked-IsSafe name value n v r l = (
  (λ e. absurd (ground arith)),
  all_header_bytes-All name (ground arith),
  reserved_in-IsNoneOf reserved_headers name r,
  has_line_break-All value l,
)

assign-IsSafe :
    (name value : Str) (m : List (Str × Str))
    → IsSafe (name, value)
    → All IsSafe m
    → All IsSafe (assign name value m)
unfolding assign
assign-IsSafe name value [] h l = (h, tt)
assign-IsSafe name value ((k, v) ∷ m) h l = elim (Bool-cases (str_eq k name)) [
  | inl e ↦ rw e (subst (λ n. IsSafe (n, value)) (sym (str_eq-eq k name e)) h, l.1)
  | inr e ↦ rw e (l.0, assign-IsSafe name value m h l.1)
]

parse_line-IsSafe :
    (i : ℕ) (line name value : Str) → parse_line i line ≡ pair name value → IsSafe (name, value)
unfolding parse_line
parse_line-IsSafe i line name value h =
    checked-IsSafe name value (ground arith) (ground arith) (ground arith) (ground arith)

line-cases :
    (l : Line) → ((e : HeaderError) × (l ≡ bad e)) ⊎ ((n : Str) × (v : Str) × (l ≡ pair n v))
line-cases (bad e) = inl (e, refl)
line-cases (pair n v) = inr (n, v, refl)

parse_lines-IsSafe :
    (i : ℕ) (ls : List Str) (m m' : List (Str × Str))
    → All IsSafe m
    → parse_lines i ls m ≡ ok m'
    → All IsSafe m'
unfolding parse_lines
parse_lines-IsSafe i [] m m' h e = let e' : m ≡ m' = ground arith in subst (All IsSafe) e' h
parse_lines-IsSafe i (l ∷ ls) m m' h e = elim (Bool-cases (is_nil (trim_space l))) [
  | inl blank ↦ parse_lines-IsSafe (suc i) ls m m' h (rw blank at e)
  | inr text ↦ elim (line-cases (parse_line i (trim_space l))) [
    | inl (x, b) ↦ absurd (ground arith)
    | inr (n, v, p) ↦
        parse_lines-IsSafe (suc i) ls (assign n v m) m'
          (assign-IsSafe n v m (parse_line-IsSafe i (trim_space l) n v p) h) (ground arith)
  ]
]

-- Every header of an accepted text has a name of one or more letters, digits and `-_.` that is none of
-- the five reserved ones, in any mixture of cases, and a value without a line break. So the panel's
-- field cannot inject a header, and sets neither the signature nor the id, the event, the attempt or
-- the content type of a delivery.
pub parse_headers-IsSafe :
    (raw : Str) (m : List (Str × Str)) → parse_headers raw ≡ ok m → All IsSafe m
unfolding parse_headers
parse_headers-IsSafe raw m h = parse_lines-IsSafe 1 (split_at 10 raw) [] m tt h

-- ===== src/Panel/Links.antt =====
-- The addresses in the panel's pages: net/url's QueryEscape and Values.Encode over bytes, and the
-- filter chips.
use tokenzy.Prelude.{
  ℕ, ◌+◌, ◌/◌, ◌%◌, Bool, ◌||◌, ◌&&◌, List, [], ◌∷◌, ◌++◌, ◌==◌, leb, is_nil, if◌then◌else◌,
}
use tokenzy.Prelude.Str.{Str, codes}
use tokenzy.Panel.{Scope}

-- Letters, digits and `-_.~`
unfoldable pub unreserved : ℕ → Bool
unreserved c =
    (leb b'a' c && leb c b'z')
    || ((leb b'A' c && leb c b'Z')
        || ((leb b'0' c && leb c b'9') || (c == b'-' || (c == b'_' || (c == b'.' || c == b'~')))))

abbrev pub hex_upper : ℕ → ℕ
hex_upper n = if leb n 9 then n + 48 else n + 55

unfoldable pub query_escape : Str → Str
query_escape [] = []
query_escape (c ∷ s) =
    let rest = query_escape s in
    if unreserved c
    then c ∷ rest
    else if c == b' '
    then b'+' ∷ rest
    else b'%' ∷ hex_upper (c / 16) ∷ hex_upper (c % 16) ∷ rest

-- `Values.Encode`, for pairs in the order of their keys; a key needs no escape.
unfoldable pub encode : List (Str × Str) → Str
encode [] = []
encode ((k, v) ∷ []) = k ++ (b'=' ∷ query_escape v)
encode ((k, v) ∷ q ∷ qs) = k ++ (b'=' ∷ query_escape v) ++ (b'&' ∷ encode (q ∷ qs))

-- `if v != "" { q.Set(k, v) }`, in front of pairs whose keys come later.
unfoldable pub set_if : Str → Str → List (Str × Str) → List (Str × Str)
set_if k v q = if is_nil v then q else (k, v) ∷ q

-- "/ui/p/<project>/<environment>/<part>"
unfoldable pub base : Str → Scope → Str
base part s = codes "/ui/p/" ++ s.project.slug ++ codes "/" ++ s.env.slug ++ codes "/" ++ part

pub record StatusChip : Type 0 where
  pub status : Str
  pub label : Str
  pub count : ℕ
  pub is_active : Bool
  pub url : Str

-- The sum of the counts of the statuses.
unfoldable pub total {ℓ} : {S : Type ℓ} → (S → ℕ) → List S → ℕ
total counts [] = 0
total counts (s ∷ ss) = counts s + total counts ss

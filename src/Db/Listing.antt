-- ===== src/Db/Listing.antt =====
-- Cursors and pages of internal/db/tokens.go, which the listings of tokens and of codes share: the
-- order (created_at DESC, id DESC), the position in it, and one page with the next position.
pub mod Cursors
pub mod Order
pub mod Select
pub mod Pages
use tokenzy.Prelude.{
  ℕ, zero, suc, ◌+◌, Bool, false, true, ◌&&◌, ◌||◌, not, Option, none, some, List, [], ◌∷◌, ◌++◌,
  ltb, ◌==◌, is_nil, length, take, get_last?, if◌then◌else◌,
}
use tokenzy.Prelude.Int.{ℤ, pos, negsuc, ltb_ℤ}
use tokenzy.Prelude.Str.{Str, str_lt, str_eq}
use tokenzy.Prelude.Text.{cut}
use tokenzy.Prelude.Decimal.{show_int, parse_int64}
use tokenzy.Prelude.Table.{select}

pub record Cursor : Type 0 where
  pub created_at : ℤ
  pub id : Str

abbrev pub zero_cursor : Cursor
zero_cursor = record { created_at = pos 0; id = [] }

-- `Cursor.Set`
unfoldable pub is_set : Cursor → Bool
is_set c = not (is_nil c.id)

-- `Cursor.String`
unfoldable pub cursor_string : Cursor → Str
cursor_string c = if not (is_set c) then [] else show_int c.created_at ++ (b'.' ∷ c.id)

unfoldable pub parse_cursor : Str → Cursor
parse_cursor s = elim (cut b'.' s) [
  | none ↦ zero_cursor
  | some (ts, id) ↦ elim (parse_int64 ts) [
    | none ↦ zero_cursor
    | some created ↦ if is_nil id then zero_cursor else record { created_at = created; id = id }
  ]
]

-- The page size: 50 where none is asked for, and at most 200.
unfoldable pub effective_limit : ℤ → ℕ
effective_limit (negsuc n) = 50
effective_limit (pos zero) = 50
effective_limit (pos (suc n)) = if ltb 200 (suc n) then 200 else suc n

-- The two columns that the order reads.
pub record Position : Type 0 where
  pub created : ℕ
  pub id : Str

-- `a` comes before `b` under ORDER BY created_at DESC, id DESC.
unfoldable pub newer : Position → Position → Bool
newer a b = ltb b.created a.created || (a.created == b.created && str_lt b.id a.id)

-- `created_at < ? OR (created_at = ? AND id < ?)`; no cursor is no condition.
unfoldable pub after_cursor : Cursor → Position → Bool
after_cursor c p =
    not (is_set c)
    || (ltb_ℤ (pos p.created) c.created_at
        || ((not (ltb_ℤ (pos p.created) c.created_at) && not (ltb_ℤ c.created_at (pos p.created)))
            && str_lt p.id c.id))

module _ {ℓ} {A : Type ℓ} (at : A → Position) where
  unfoldable pub insert_row : A → List A → List A
  insert_row a [] = a ∷ []
  insert_row a (b ∷ bs) = if newer (at b) (at a) then b ∷ insert_row a bs else a ∷ b ∷ bs

  -- ORDER BY created_at DESC, id DESC
  unfoldable pub order_rows : List A → List A
  order_rows [] = []
  order_rows (a ∷ rest) = insert_row a (order_rows rest)

  abbrev pub cursor_of : Option A → Cursor
  cursor_of none = zero_cursor
  cursor_of (some a) = record { created_at = pos (at a).created; id = (at a).id }

  -- From at most `limit + 1` fetched rows: the page, and the cursor behind its last row if the extra
  -- row is there.
  unfoldable pub cut_page : ℕ → List A → List A × Cursor
  cut_page limit rows =
      if ltb limit (length rows)
      then (take limit rows, cursor_of (get_last? (take limit rows)))
      else (rows, zero_cursor)

  -- One page of the rows that satisfy the filter, from the cursor on.
  unfoldable pub page : (A → Bool) → ℤ → Cursor → List A → List A × Cursor
  page filter limit cursor table =
      let n = effective_limit limit in
      cut_page n
        (take (suc n) (order_rows (select (λ a. filter a && after_cursor cursor (at a)) table)))

-- ===== src/Db/Listing/Cursors.antt =====
-- A printed cursor reads back as the same position.
use tokenzy.Prelude.{
  ℕ, ◌+◌, ◌-◌, ◌*◌, ◌<◌, ◌^◌, ◌≡◌, refl, some, [], ◌∷◌, ◌++◌, arith, is_nil, false,
}
use tokenzy.Prelude.Int.{pos}
use tokenzy.Prelude.Str.{Str}
use tokenzy.Prelude.Text.{cut}
use tokenzy.Prelude.Decimal.{
  show_nat, show_int, read_digits, read_nat-show_nat, parse_int64-show_nat,
}
use tokenzy.Db.Listing.{cursor_string, parse_cursor, is_set}

-- A text that reads as digits holds no full stop.
cut-digits :
    (s t : Str) (acc n : ℕ) → read_digits acc s ≡ some n → cut b'.' (s ++ (b'.' ∷ t)) ≡ some (s, t)
unfolding cut read_digits
cut-digits [] t acc n h = refl
cut-digits (c ∷ s) t acc n h = ground (arith, cut-digits s t (acc * 10 + (c - 48)) n)

-- The cursor behind any row (its time a non-negative int64, its id not empty, whatever bytes it
-- holds) survives the trip through `Cursor.String` and `ParseCursor`.
pub parse_cursor-cursor_string :
    (n : ℕ) (id : Str)
    → n < 2 ^ 63
    → is_nil id ≡ false
    → parse_cursor (cursor_string (record { created_at = pos n; id = id }))
      ≡ record { created_at = pos n; id = id }
unfolding parse_cursor cursor_string is_set show_int
parse_cursor-cursor_string n id h k =
    rw (k, cursor_string)
      (rw (cut-digits (show_nat n) id 0 n (read_nat-show_nat n), parse_cursor)
        (rw (parse_int64-show_nat n h) (rw k)))

-- ===== src/Db/Listing/Pages.antt =====
-- Following the cursor from the top visits every row of the listing once, in order.
use mathlib.Core.Path.{fun_ext}
use mathlib.Core.List.{append_assoc}
use tokenzy.Prelude.{
  ℕ, zero, suc, ◌≤◌, ◌<◌, ◌≡◌, refl, sym, ap, subst, ◌∙◌, Bool, true, false, some, List, [], ◌∷◌,
  ◌++◌, arith, All, All-right, All-take, All-get_last?, Bool-cases, inl, inr, take, drop, get_last?,
  length, length-take, length-drop, take-append-drop, ltb, is_nil,
}
use tokenzy.Prelude.Int.{ℤ, pos, negsuc}
use tokenzy.Prelude.Table.{select}
use tokenzy.Db.Listing.{
  Position, Cursor, zero_cursor, is_set, effective_limit, newer, after_cursor, order_rows,
  cursor_of, cut_page, page,
}
use tokenzy.Db.Listing.Order.{IsOrdered, HasDistinctIds, order_rows-IsOrdered, order_rows-All}
use tokenzy.Db.Listing.Select.{select-&&, select-true, select-All, select-order_rows, select-behind}

-- A page holds between 1 and 200 rows.
pub effective_limit_bounds : (l : ℤ) → (m : ℕ) × (effective_limit l ≡ suc m) × (m < 200)
unfolding effective_limit
effective_limit_bounds (negsuc n) = (49, refl, omega arith)
effective_limit_bounds (pos zero) = (49, refl, omega arith)
effective_limit_bounds (pos (suc n)) = elim (Bool-cases (ltb 200 (suc n))) [
  | inl e ↦ (199, rw e, omega arith)
  | inr e ↦ (n, rw e, ground arith)
]

module _ {ℓ} {A : Type ℓ} where
  take-take : (n : ℕ) (xs : List A) → take n (take (suc n) xs) ≡ take n xs
  take-take zero xs = refl
  take-take (suc n) [] = refl
  take-take (suc n) (x ∷ xs) = ap (◌∷◌ x) (take-take n xs)

  take-all : (n : ℕ) (xs : List A) → length (take (suc n) xs) ≤ n → take (suc n) xs ≡ xs
  take-all n [] h = refl
  take-all zero (x ∷ xs) h = absurd (omega arith)
  take-all (suc n) (x ∷ xs) h = ap (◌∷◌ x) (take-all n xs (omega arith))

  get_last?-some :
      (n : ℕ) (xs : List A) → 0 < length xs → (a : A) × (get_last? (take (suc n) xs) ≡ some a)
  get_last?-some n [] h = absurd (omega arith)
  get_last?-some zero (x ∷ xs) h = (x, refl)
  get_last?-some (suc n) (x ∷ []) h = (x, refl)
  get_last?-some (suc n) (x ∷ y ∷ xs) h = get_last?-some n (y ∷ xs) (omega arith)

zero_unset : is_set zero_cursor ≡ false
unfolding is_set
zero_unset = refl

module _ {ℓ} {A : Type ℓ} (at : A → Position) where
  select-IsOrdered : (p : A → Bool) (xs : List A) → IsOrdered at xs → IsOrdered at (select p xs)
  unfolding select
  select-IsOrdered p [] o = tt
  select-IsOrdered p (x ∷ xs) o =
      ground
        (arith, select-IsOrdered p xs o.1, select-All (λ b. newer (at x) (at b) ≡ true) p xs o.0)

  after_cursor_of :
      (l : A)
      → is_nil (at l).id ≡ false
      → (x : A) → after_cursor (cursor_of at (some l)) (at x) ≡ newer (at l) (at x)
  unfolding after_cursor newer is_set
  after_cursor_of l h x = ground arith

  set_cursor_of : (l : A) → is_nil (at l).id ≡ false → is_set (cursor_of at (some l)) ≡ true
  unfolding is_set
  set_cursor_of l h = rw h

  All-after_zero : (xs : List A) → All (λ a. after_cursor zero_cursor (at a) ≡ true) xs
  unfolding after_cursor is_set
  All-after_zero [] = tt
  All-after_zero (x ∷ xs) = (refl, All-after_zero xs)

  cut_page-more :
      (m : ℕ) (rows : List A) (l : A)
      → ltb (suc m) (length (take (suc (suc m)) rows)) ≡ true
      → get_last? (take (suc m) rows) ≡ some l
      → cut_page at (suc m) (take (suc (suc m)) rows) ≡ (take (suc m) rows, cursor_of at (some l))
  unfolding cut_page
  cut_page-more m rows l more e =
      rw more (rw (take-take (suc m) rows) (ap (λ o. (take (suc m) rows, cursor_of at o)) e))

  cut_page-last :
      (m : ℕ) (rows : List A)
      → ltb (suc m) (length (take (suc (suc m)) rows)) ≡ false
      → cut_page at (suc m) (take (suc (suc m)) rows) ≡ (rows, zero_cursor)
  unfolding cut_page
  cut_page-last m rows e =
      rw e (ap (λ (r : List A). (r, zero_cursor)) (take-all (suc m) rows (ground arith)))

module _ {ℓ} {A : Type ℓ} (at : A → Position) (filter : A → Bool) (limit : ℤ) (table : List A) where
  -- On to the next page if there is one.
  abbrev follow : (Cursor → List A) → List A × Cursor → List A
  follow visit_next (rows, next) = elim (is_set next) [
    | true ↦ rows ++ visit_next next
    | false ↦ rows
  ]

  -- A client that asks for page after page; the fuel bounds the pages.
  unfoldable pub visit : ℕ → Cursor → List A
  visit zero c = []
  visit (suc fuel) c = follow (visit fuel) (page at filter limit c table)

  followed :
      (k : Cursor → List A) (rows : List A) (next : Cursor)
      → is_set next ≡ true
      → follow k (rows, next) ≡ rows ++ k next
  followed k rows next s = rw (s, follow)

  stopped :
      (k : Cursor → List A) (rows : List A) (next : Cursor)
      → is_set next ≡ false
      → follow k (rows, next) ≡ rows
  stopped k rows next s = rw (s, follow)

  visit-more :
      (fuel : ℕ) (c : Cursor) {rows : List A} {next : Cursor}
      → page at filter limit c table ≡ (rows, next)
      → is_set next ≡ true
      → visit (suc fuel) c ≡ rows ++ visit fuel next
  unfolding visit
  visit-more fuel c {rows} {next} e s =
      ap (follow (visit fuel)) e ∙ followed (visit fuel) rows next s

  visit-last :
      (fuel : ℕ) (c : Cursor) {rows : List A} {next : Cursor}
      → page at filter limit c table ≡ (rows, next)
      → is_set next ≡ false
      → visit (suc fuel) c ≡ rows
  unfolding visit
  visit-last fuel c {rows} {next} e s =
      ap (follow (visit fuel)) e ∙ stopped (visit fuel) rows next s

module _ {ℓ} {A : Type ℓ} (at : A → Position) (filter : A → Bool) (limit : ℤ) (table : List A)
    (distinct : HasDistinctIds at table) (named : All (λ a. is_nil (at a).id ≡ false) table) where
  abbrev listing : List A
  listing = select filter (order_rows at table)

  listing-IsOrdered : IsOrdered at listing
  listing-IsOrdered =
      select-IsOrdered at filter (order_rows at table) (order_rows-IsOrdered at table distinct)

  listing-named : All (λ a. is_nil (at a).id ≡ false) listing
  listing-named = select-All _ filter _ (order_rows-All at _ table named)

  abbrev rest : Cursor → List A
  rest c = select (λ a. after_cursor c (at a)) listing

  page-rest :
      (c : Cursor)
      → page at filter limit c table
        ≡ cut_page at (effective_limit limit) (take (suc (effective_limit limit)) (rest c))
  unfolding page
  page-rest c =
      ap
        (λ (r : List A). cut_page at (effective_limit limit) (take (suc (effective_limit limit)) r))
        (sym (select-order_rows at _ table distinct)
          ∙ select-&& filter (λ a. after_cursor c (at a)) (order_rows at table))

  page-at :
      (c : Cursor) (rows : List A) (m : ℕ)
      → rest c ≡ rows
      → effective_limit limit ≡ suc m
      → page at filter limit c table ≡ cut_page at (suc m) (take (suc (suc m)) rows)
  page-at c rows m r lim =
      page-rest c
      ∙ ap (λ (n : ℕ). cut_page at n (take (suc n) (rest c))) lim
      ∙ ap (λ (q : List A). cut_page at (suc m) (take (suc (suc m)) q)) r

  last-named :
      (before rows : List A) (m : ℕ) (l : A)
      → before ++ rows ≡ listing
      → get_last? (take (suc m) rows) ≡ some l
      → is_nil (at l).id ≡ false
  last-named before rows m l e h =
      All-get_last? _ (take (suc m) rows)
        (All-take _ (suc m) rows (All-right _ before rows (subst (All _) (sym e) listing-named))) h

  rest-next :
      (before rows : List A) (m : ℕ) (l : A)
      → before ++ rows ≡ listing
      → get_last? (take (suc m) rows) ≡ some l
      → rest (cursor_of at (some l)) ≡ drop (suc m) rows
  rest-next before rows m l e h =
      ap (select (λ a. after_cursor (cursor_of at (some l)) (at a))) (sym e)
      ∙ ap (λ (p : A → Bool). select p (before ++ rows))
          (fun_ext (after_cursor_of at l (last-named before rows m l e h)))
      ∙ select-behind at before m rows (subst (IsOrdered at) (sym e) listing-IsOrdered) h

  visit_from :
      (fuel : ℕ) (c : Cursor) (before rows : List A)
      → before ++ rows ≡ listing
      → rest c ≡ rows
      → length rows < fuel
      → visit at filter limit table fuel c ≡ rows
  unfolding visit
  visit_from zero c before rows e r h = absurd (omega arith)
  visit_from (suc fuel) c before rows e r h =
      let (m, lim, _) = effective_limit_bounds limit in
      elim (Bool-cases (ltb (suc m) (length (take (suc (suc m)) rows)))) [
        | inl more ↦
            let (l, last) =
              get_last?-some m rows (ground (arith, length-take (suc (suc m)) rows)) in
            visit-more at filter limit table fuel c
              (page-at c rows m r lim ∙ cut_page-more at m rows l more last)
              (set_cursor_of at l (last-named before rows m l e last))
            ∙ ap (◌++◌ (take (suc m) rows)) (
                visit_from fuel (cursor_of at (some l)) (before ++ take (suc m) rows)
                  (drop (suc m) rows)
                  (append_assoc before (take (suc m) rows) (drop (suc m) rows)
                    ∙ ap (◌++◌ before) (take-append-drop (suc m) rows)
                    ∙ e)
                  (rest-next before rows m l e last)
                  (ground (arith, length-drop (suc m) rows, length-take (suc (suc m)) rows)))
            ∙ take-append-drop (suc m) rows
        | inr last ↦
            visit-last at filter limit table fuel c
              (page-at c rows m r lim ∙ cut_page-last at m rows last) zero_unset
      ]

  -- For rows with distinct ids that are not empty, and with as much fuel as there are rows and one
  -- more, following the next-cursors from the top yields the whole listing: every row that the
  -- filter selects, newest first, once each, whatever the page size.
  pub visit_complete :
      (fuel : ℕ)
      → length (order_rows at (select filter table)) < fuel
      → visit at filter limit table fuel zero_cursor ≡ order_rows at (select filter table)
  visit_complete fuel h =
      let eq : listing ≡ order_rows at (select filter table) =
        select-order_rows at filter table distinct in
      visit_from fuel zero_cursor [] listing refl
        (select-true _ listing (All-after_zero at listing))
        (subst (λ (q : List A). length q < fuel) (sym eq) h)
      ∙ eq

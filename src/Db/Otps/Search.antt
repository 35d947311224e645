-- ===== src/Db/Otps/Search.antt =====
-- What the panel's search box finds.
use tokenzy.Prelude.{◌≡◌, refl, Bool, true, false, ◌&&◌, ◌||◌, [], ◌∷◌, ◌++◌, ◌==◌, All}
use tokenzy.Prelude.Str.{Str}
use tokenzy.Db.Otps.Filter.{
  escape_like, fold_case, any_text, item_of, items, matches, like, up_to_nul,
}

-- The text begins with s, or contains it, up to the case of ASCII letters.
abbrev pub begins : Str → Str → Bool
begins [] text = true
begins (c ∷ s) [] = false
begins (c ∷ s) (t ∷ text) = fold_case c == fold_case t && begins s text

abbrev pub contains_text : Str → Str → Bool
contains_text s [] = begins s []
contains_text s (t ∷ text) = begins s (t ∷ text) || contains_text s text

any-all : (text : Str) → matches (any_text ∷ []) text ≡ true
unfolding matches
any-all [] = refl
any-all (t ∷ text) = any-all text

-- No zero byte.
abbrev pub HasNoNul : Str → Type 0
HasNoNul = All (λ c. c == 0 ≡ false)

-- A term that is a zero byte matches every identifier.
like-nul : (text : Str) → like (b'%' ∷ (escape_like (0 ∷ []) ++ (b'%' ∷ []))) text ≡ true
unfolding like escape_like up_to_nul items item_of
like-nul text = any-all (up_to_nul text)

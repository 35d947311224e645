-- ===== src/Db/Migrate/Statements.antt =====
-- What a script of statements is split into: its statements, told apart by an independent grammar.
use tokenzy.Prelude.{
  ℕ, ◌≡◌, refl, ap, ◌∙◌, sym, false, ◌&&◌, List, [], ◌∷◌, ◌++◌, arith, All, ◌==◌, Bool-cases, inl,
  inr, is_nil, if◌then◌else◌,
}
use mathlib.Core.List.{append_assoc, append-nil}
use tokenzy.Prelude.Str.{Str}
use tokenzy.Prelude.Text.{trim_space}
use tokenzy.Db.Migrate.{
  plain, in_string, in_comment, quote, starts, flush, split_from, split_statements,
}

-- A piece of a statement: a character, a literal with its content, a comment up to the line's end.
pub data Piece : Type 0 where
  char : ℕ → Piece
  literal comment : Str → Piece

-- A quote in a literal is written twice.
abbrev doubled : Str → Str
doubled [] = []
doubled (c ∷ s) = if c == quote then quote ∷ quote ∷ doubled s else c ∷ doubled s

abbrev pub written : Piece → Str
written (char c) = c ∷ []
written (literal s) = quote ∷ (doubled s ++ (quote ∷ []))
written (comment s) = b'-' ∷ b'-' ∷ (s ++ (10 ∷ []))

-- What the database is given of a piece: a comment leaves its line end.
abbrev pub kept : Piece → Str
kept (char c) = c ∷ []
kept (literal s) = quote ∷ (doubled s ++ (quote ∷ []))
kept (comment s) = 10 ∷ []

abbrev pub written_all : List Piece → Str
written_all [] = []
written_all (p ∷ ps) = written p ++ written_all ps

abbrev pub kept_all : List Piece → Str
kept_all [] = []
kept_all (p ∷ ps) = kept p ++ kept_all ps

-- A piece is read as that piece in front of a text: a character is no quote and no semicolon and does
-- not begin a comment, a literal is not continued, a comment has no line end in it.
abbrev pub Fits : Piece → Str → Type 0
Fits (char c) after =
    ((c == quote) ≡ false) × ((c == b';') ≡ false) × ((c == b'-' && starts b'-' after) ≡ false)
Fits (literal s) after = starts quote after ≡ false
Fits (comment s) after = All (λ (c : ℕ). (c == 10) ≡ false) s

abbrev pub FitAll : List Piece → Str → Type 0
FitAll [] after = Unit
FitAll (p ∷ ps) after = Fits p (written_all ps ++ after) × FitAll ps after

split-char :
    (c : ℕ) (cur after : Str)
    → Fits (char c) after
    → split_from plain cur (c ∷ after) ≡ split_from plain (cur ++ (c ∷ [])) after
unfolding split_from
split-char c cur [] (q, s, d) = ground arith
split-char c cur (e ∷ after) (q, s, d) = ground arith

split-comment :
    (s cur after : Str)
    → All (λ (c : ℕ). (c == 10) ≡ false) s
    → split_from in_comment cur (s ++ (10 ∷ after)) ≡ split_from plain (cur ++ (10 ∷ [])) after
unfolding split_from
split-comment [] cur after h = refl
split-comment (c ∷ s) cur after h = rw (h.0, split_from) (split-comment s cur after h.1)

-- Inside of a literal, and past its closing quote.
split-closing :
    (cur after : Str)
    → starts quote after ≡ false
    → split_from in_string cur (quote ∷ after) ≡ split_from plain (cur ++ (quote ∷ [])) after
unfolding split_from
split-closing cur [] h = refl
split-closing cur (c ∷ after) h = rw (h, split_from) refl

split-inside :
    (c : ℕ) (cur after : Str)
    → (c == quote) ≡ false
    → split_from in_string cur (c ∷ after) ≡ split_from in_string (cur ++ (c ∷ [])) after
unfolding split_from
split-inside c cur [] h = refl
split-inside c cur (d ∷ after) h = rw (h, split_from) refl

split-doubled :
    (cur after : Str)
    → split_from in_string cur (quote ∷ quote ∷ after)
      ≡ split_from in_string (cur ++ (quote ∷ quote ∷ [])) after
unfolding split_from
split-doubled cur after = refl

split-literal :
    (s cur after : Str)
    → starts quote after ≡ false
    → split_from in_string cur (doubled s ++ (quote ∷ after))
      ≡ split_from plain (cur ++ (doubled s ++ (quote ∷ []))) after
split-literal [] cur after h = split-closing cur after h
split-literal (c ∷ s) cur after h = elim (Bool-cases (c == quote)) [
  | inl t ↦ rw t (
      split-doubled cur (doubled s ++ (quote ∷ after))
      ∙ split-literal s (cur ++ (quote ∷ quote ∷ [])) after h
      ∙ ap (λ (l : Str). split_from plain l after)
          (append_assoc cur (quote ∷ quote ∷ []) (doubled s ++ (quote ∷ []))))
  | inr f ↦ rw f (
      split-inside c cur (doubled s ++ (quote ∷ after)) f
      ∙ split-literal s (cur ++ (c ∷ [])) after h
      ∙ ap (λ (l : Str). split_from plain l after)
          (append_assoc cur (c ∷ []) (doubled s ++ (quote ∷ []))))
]

split-opening :
    (cur after : Str)
    → split_from plain cur (quote ∷ after) ≡ split_from in_string (cur ++ (quote ∷ [])) after
unfolding split_from
split-opening cur [] = refl
split-opening cur (c ∷ after) = refl

split-dashes :
    (cur after : Str) → split_from plain cur (b'-' ∷ b'-' ∷ after) ≡ split_from in_comment cur after
unfolding split_from
split-dashes cur after = refl

-- One piece, wherever it stands.
split-piece :
    (p : Piece) (cur after : Str)
    → Fits p after
    → split_from plain cur (written p ++ after) ≡ split_from plain (cur ++ kept p) after
split-piece (char c) cur after h = split-char c cur after h
split-piece (literal s) cur after h =
    ap (λ (t : Str). split_from plain cur (quote ∷ t)) (append_assoc (doubled s) (quote ∷ []) after)
    ∙ split-opening cur (doubled s ++ (quote ∷ after))
    ∙ split-literal s (cur ++ (quote ∷ [])) after h
    ∙ ap (λ (t : Str). split_from plain t after)
        (append_assoc cur (quote ∷ []) (doubled s ++ (quote ∷ [])))
split-piece (comment s) cur after h =
    ap (λ (t : Str). split_from plain cur (b'-' ∷ b'-' ∷ t)) (append_assoc s (10 ∷ []) after)
    ∙ split-dashes cur (s ++ (10 ∷ after))
    ∙ split-comment s cur after h

split-pieces :
    (ps : List Piece) (cur after : Str)
    → FitAll ps after
    → split_from plain cur (written_all ps ++ after) ≡ split_from plain (cur ++ kept_all ps) after
split-pieces [] cur after h = rw (append-nil cur) refl
split-pieces (p ∷ ps) cur after h =
    ap (split_from plain cur) (append_assoc (written p) (written_all ps) after)
    ∙ split-piece p cur (written_all ps ++ after) h.0
    ∙ split-pieces ps (cur ++ kept p) after h.1
    ∙ ap (λ (t : Str). split_from plain t after) (append_assoc cur (kept p) (kept_all ps))

-- The end of a statement.
split-end :
    (cur after : Str) → split_from plain cur (b';' ∷ after) ≡ flush cur (split_from plain [] after)
unfolding split_from flush trim_space
split-end cur [] = refl
split-end cur (c ∷ after) = refl

-- The text of a script: each statement but the last has its semicolon.
abbrev pub script : List (List Piece) → List Piece → Str
script [] last = written_all last
script (st ∷ sts) last = written_all st ++ (b';' ∷ script sts last)

abbrev pub ScriptFits : List (List Piece) → List Piece → Type 0
ScriptFits [] last = FitAll last []
ScriptFits (st ∷ sts) last = FitAll st (b';' ∷ script sts last) × ScriptFits sts last

-- The texts of the statements, trimmed, without the blank ones.
abbrev pub texts : List (List Piece) → List Str
texts [] = []
texts (st ∷ sts) =
    let rest = texts sts in
    if is_nil (trim_space (kept_all st)) then rest else trim_space (kept_all st) ∷ rest

split-script :
    (sts : List (List Piece)) (last : List Piece)
    → ScriptFits sts last
    → split_from plain [] (script sts last) ≡ texts (sts ++ (last ∷ []))
unfolding flush split_from
split-script [] last h =
    ap (split_from plain []) (sym (append-nil (written_all last))) ∙ split-pieces last [] [] h
split-script (st ∷ sts) last h =
    split-pieces st [] (b';' ∷ script sts last) h.0
    ∙ split-end (kept_all st) (script sts last)
    ∙ ap (flush (kept_all st)) (split-script sts last h.1)

-- A script of any statements is split into exactly these, in their order, trimmed and without the
-- blank ones. A statement is a sequence of characters, of literals, in which a quote is doubled and
-- semicolons and dashes mean nothing, and of comments, of which the line end is left; the script is
-- written so that each piece is read as itself, and its last statement needs no semicolon.
pub split_statements-script :
    (sts : List (List Piece)) (last : List Piece)
    → ScriptFits sts last
    → split_statements (script sts last) ≡ texts (sts ++ (last ∷ []))
unfolding split_statements
split_statements-script sts last h = split-script sts last h

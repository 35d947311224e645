-- ===== src/Db/Migrate.antt =====
-- internal/db/db.go, seed.go: the migration runner, the seed, and the splitting of a script into
-- statements. The text is split byte by byte, where the program goes by runes: no byte of a rune
-- beyond ASCII is one of the four characters that matter. How a statement changes the schema and the
-- data is a parameter, `none` for an error.
pub mod Statements
pub mod Again
use tokenzy.Prelude.{
  ℕ, Bool, true, false, ◌&&◌, Option, none, some, List, [], ◌∷◌, ◌++◌, ltb, ◌==◌, is_nil, is_some,
  if◌then◌else◌,
}
use tokenzy.Prelude.Str.{Str, str_eq, str_lt}
use tokenzy.Prelude.Text.{trim_space}
use tokenzy.Prelude.Table.{sort_by, select_row, count_where}

-- `inStr` and `inLnCmt`
pub data Mode : Type 0 where
  plain in_string in_comment : Mode

abbrev pub quote : ℕ
quote = 39

-- What the end of a statement adds to those behind it.
unfoldable pub flush : Str → List Str → List Str
flush cur rest = if is_nil (trim_space cur) then rest else trim_space cur ∷ rest

abbrev pub starts : ℕ → Str → Bool
starts c [] = false
starts c (d ∷ s) = d == c

-- The loop of `splitStatements`, where `cur` is what the builder holds.
unfoldable pub split_from : Mode → Str → Str → List Str
split_from m cur [] = flush cur []
split_from in_comment cur (c ∷ s) = elim (c == 10) [
  | true ↦ split_from plain (cur ++ (c ∷ [])) s
  | false ↦ split_from in_comment cur s
]
split_from in_string cur (c ∷ []) = flush (cur ++ (c ∷ [])) []
split_from in_string cur (c ∷ d ∷ s) = elim (c == quote) [
  | false ↦ split_from in_string (cur ++ (c ∷ [])) (d ∷ s)
  | true ↦ elim (d == quote) [
    | true ↦ split_from in_string (cur ++ (c ∷ quote ∷ [])) s
    | false ↦ split_from plain (cur ++ (c ∷ [])) (d ∷ s)
  ]
]
split_from plain cur (c ∷ []) = if c == b';' then flush cur [] else flush (cur ++ (c ∷ [])) []
split_from plain cur (c ∷ d ∷ s) = elim (c == b'-' && d == b'-') [
  | true ↦ split_from in_comment cur s
  | false ↦ elim (c == quote) [
    | true ↦ split_from in_string (cur ++ (c ∷ [])) (d ∷ s)
    | false ↦ elim (c == b';') [
      | true ↦ flush cur (split_from plain [] (d ∷ s))
      | false ↦ split_from plain (cur ++ (c ∷ [])) (d ∷ s)
    ]
  ]
]

unfoldable pub split_statements : Str → List Str
split_statements src = split_from plain [] src

pub record Migration : Type 0 where
  pub name : Str
  pub content : Str

-- A row of `schema_migrations`.
pub record Applied : Type 0 where
  pub name : Str
  pub applied_at : ℕ

-- What one migration or the whole run leaves; a failure names the migration.
pub data Outcome {ℓ} (A : Type ℓ) : Type ℓ where
  done : A → Outcome A
  failed : Str → A → Outcome A

-- `SELECT COUNT(*) … WHERE name = ?`
unfoldable pub is_applied : Str → List Applied → Bool
is_applied name rows = ltb 0 (count_where (λ (a : Applied). str_eq a.name name) rows)

module _ {ℓ} {S : Type ℓ} (exec : Str → S → Option S) where
  -- The statements of a transaction, up to the first that fails.
  unfoldable pub exec_all : List Str → S → Option S
  exec_all [] s = some s
  exec_all (stmt ∷ stmts) s = elim (exec stmt s) [ none ↦ none | some s' ↦ exec_all stmts s' ]

  -- The loop of `Migrate` at one time; a failed transaction is rolled back.
  unfoldable pub migrate_files : ℕ → List Migration → S × List Applied → Outcome (S × List Applied)
  migrate_files ts [] (s, rows) = done (s, rows)
  migrate_files ts (m ∷ ms) (s, rows) = elim (is_applied m.name rows) [
    | true ↦ migrate_files ts ms (s, rows)
    | false ↦ elim (exec_all (split_statements m.content) s) [
      | none ↦ failed m.name (s, rows)
      | some s' ↦ migrate_files ts ms (s', rows ++ (record { name = m.name; applied_at = ts } ∷ []))
    ]
  ]

  -- `Migrate`, on the embedded files, in the order of their names.
  unfoldable pub migrate : ℕ → List Migration → S × List Applied → Outcome (S × List Applied)
  migrate ts files state =
      migrate_files ts (sort_by (λ (a : Migration) (b : Migration). str_lt a.name b.name) files)
        state

  -- `Seed`, on the number of projects and the script: whether it wrote anything, `none` for an error.
  unfoldable pub seed : (S → ℕ) → Str → S → Option (Bool × S)
  seed count_projects script s =
      if ltb 0 (count_projects s)
      then some (false, s)
      else elim (exec_all (split_statements script) s) [ none ↦ none | some s' ↦ some (true, s') ]

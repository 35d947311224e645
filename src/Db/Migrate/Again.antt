-- ===== src/Db/Migrate/Again.antt =====
-- A second run of the migrations finds nothing to do.
use tokenzy.Prelude.{
  ℕ, ◌≡◌, refl, true, Bool-cases, Option-cases, inl, inr, Option, List, [], ◌∷◌, ◌++◌, arith, All,
  ◌⊎◌,
}
use tokenzy.Prelude.Str.{Str, str_eq, str_eq_refl}
use tokenzy.Prelude.Table.{count_where}
use tokenzy.Prelude.Table.Counts.{count-append}
use tokenzy.Db.Migrate.{
  Migration, Applied, done, exec_all, is_applied, migrate_files, migrate, split_statements,
}

is_applied-append :
    (name : Str) (rows more : List Applied)
    → is_applied name rows ≡ true
    → is_applied name (rows ++ more) ≡ true
unfolding is_applied
is_applied-append name rows more h =
    ground (arith, count-append (λ (a : Applied). str_eq a.name name) rows more)

is_applied-own :
    (name : Str) (ts : ℕ) (rows : List Applied)
    → is_applied name (rows ++ (record { name = name; applied_at = ts } ∷ [])) ≡ true
unfolding is_applied count_where
is_applied-own name ts rows = ground (
  arith,
  str_eq_refl name,
  count-append (λ (a : Applied). str_eq a.name name) rows
      (record { name = name; applied_at = ts } ∷ []),
)

abbrev record_of : ℕ → Migration → Applied
record_of ts m = record { name = m.name; applied_at = ts }

module _ {ℓ} {S : Type ℓ} (exec : Str → S → Option S) (ts : ℕ) where
  -- The first file of a run that ends well was applied before, or its statements went through.
  migrate_files-inv :
      (m : Migration) (ms : List Migration) (s s' : S) (rows rows' : List Applied)
      → migrate_files exec ts (m ∷ ms) (s, rows) ≡ done (s', rows')
      → ((is_applied m.name rows ≡ true) × (migrate_files exec ts ms (s, rows) ≡ done (s', rows')))
        ⊎ ((t : S) × (migrate_files exec ts ms (t, rows ++ (record_of ts m ∷ []))
              ≡ done (s', rows')))
  unfolding migrate_files
  migrate_files-inv m ms s s' rows rows' h = elim (Bool-cases (is_applied m.name rows)) [
    | inl old ↦ inl (old, rw (old, migrate_files) at h)
    | inr new ↦ elim (Option-cases (exec_all exec (split_statements m.content) s)) [
      | inl bad ↦ absurd (ground arith)
      | inr (t, good) ↦ inr (t, rw good at (rw (new, migrate_files) at h))
    ]
  ]

  -- What is applied stays applied.
  migrate_files-keeps :
      (ms : List Migration) (s s' : S) (rows rows' : List Applied) (name : Str)
      → migrate_files exec ts ms (s, rows) ≡ done (s', rows')
      → is_applied name rows ≡ true
      → is_applied name rows' ≡ true
  unfolding migrate_files
  migrate_files-keeps [] s s' rows rows' name h k = ground arith
  migrate_files-keeps (m ∷ ms) s s' rows rows' name h k =
      elim (migrate_files-inv m ms s s' rows rows' h) [
        | inl (old, rest) ↦ migrate_files-keeps ms s s' rows rows' name rest k
        | inr (t, rest) ↦
            migrate_files-keeps ms t s' (rows ++ (record_of ts m ∷ [])) rows' name rest
              (is_applied-append name rows (record_of ts m ∷ []) k)
      ]

  -- Every file of a run that ends well is applied behind it.
  migrate_files-All :
      (ms : List Migration) (s s' : S) (rows rows' : List Applied)
      → migrate_files exec ts ms (s, rows) ≡ done (s', rows')
      → All (λ (m : Migration). is_applied m.name rows' ≡ true) ms
  migrate_files-All [] s s' rows rows' h = tt
  migrate_files-All (m ∷ ms) s s' rows rows' h = elim (migrate_files-inv m ms s s' rows rows' h) [
    | inl (old, rest) ↦ (
      migrate_files-keeps ms s s' rows rows' m.name rest old,
      migrate_files-All ms s s' rows rows' rest,
    )
    | inr (t, rest) ↦ (
      migrate_files-keeps ms t s' (rows ++ (record_of ts m ∷ [])) rows' m.name rest
          (is_applied-own m.name ts rows),
      migrate_files-All ms t s' (rows ++ (record_of ts m ∷ [])) rows' rest,
    )
  ]

  migrate_files-idle :
      (ms : List Migration) (s : S) (rows : List Applied)
      → All (λ (m : Migration). is_applied m.name rows ≡ true) ms
      → migrate_files exec ts ms (s, rows) ≡ done (s, rows)
  unfolding migrate_files
  migrate_files-idle [] s rows h = refl
  migrate_files-idle (m ∷ ms) s rows h = rw (h.0, migrate_files) (migrate_files-idle ms s rows h.1)

-- Once the migrations have run, with whatever effect of their statements, a run at any later start
-- applies none of them again: it ends well and leaves the schema, the data and the table of applied
-- migrations as they were.
pub migrate-migrate :
    {S : Type 0} (exec : Str → S → Option S) (ts later : ℕ) (files : List Migration) (s s' : S)
    (rows rows' : List Applied)
    → migrate exec ts files (s, rows) ≡ done (s', rows')
    → migrate exec later files (s', rows') ≡ done (s', rows')
unfolding migrate
migrate-migrate exec ts later files s s' rows rows' h =
    migrate_files-idle exec later _ s' rows' (migrate_files-All exec ts _ s s' rows rows' h)

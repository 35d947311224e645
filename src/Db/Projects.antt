-- ===== src/Db/Projects.antt =====
-- internal/db/projects.go: projects and environments, on the tables and the clock. Rows go together
-- with the row they refer to (ON DELETE CASCADE).
pub mod Links
pub mod TokenLinks
pub mod RowLinks
pub mod HookLinks
pub mod Integrity
use tokenzy.Prelude.{
  ℕ, Bool, ◌&&◌, ◌||◌, Option, none, some, List, [], ◌∷◌, ◌++◌, ltb, ◌==◌, is_some, is_none,
  if◌then◌else◌,
}
use tokenzy.Prelude.Str.{Str, codes, str_eq}
use tokenzy.Prelude.Table.{
  select, select_row, count_where, delete_where, sort_by, next_rowid, orphaned,
}
use tokenzy.Model.{Project, Environment, ApiKey, Token, Otp}
use tokenzy.Db.{Database, WebhookRow, Result, ok, err, not_found, duplicate, failure}
use tokenzy.Db.Webhooks.{remove_webhooks}

abbrev pub default_environment : Str
default_environment = codes "prod"

-- Both INSERTs of the transaction; the second meets no constraint, since the project is new.
unfoldable pub create_project : ℕ → Str → Str → Database → Result Project × Database
create_project ts slug name d =
    if is_some (select_row (λ (p : Project). str_eq p.slug slug) d.projects)
    then (err duplicate, d)
    else let id = next_rowid (λ (p : Project). p.id) d.projects in
      let p : Project = record { id = id; slug = slug; name = name; created_at = ts } in
      let e : Environment = record {
        id = next_rowid (λ (e : Environment). e.id) d.environments;
        project_id = id;
        slug = default_environment;
        created_at = ts;
      } in
      (ok p, record d { projects = d.projects ++ p ∷ []; environments = d.environments ++ e ∷ [] })

unfoldable pub list_projects : Database → List Project
list_projects d =
    sort_by
      (λ (a : Project) (b : Project).
        ltb b.created_at a.created_at || (a.created_at == b.created_at && ltb b.id a.id))
      d.projects

unfoldable pub get_project_by_slug : Str → Database → Result Project
get_project_by_slug slug d = elim (select_row (λ (p : Project). str_eq p.slug slug) d.projects) [
  | none ↦ err not_found
  | some p ↦ ok p
]

-- Environments, with everything that hangs on them.
unfoldable pub remove_environments : (Environment → Bool) → Database → Database
remove_environments p d =
    let gone = orphaned p (λ (e : Environment). e.id) d.environments in
    let d' = remove_webhooks (λ (w : WebhookRow). gone w.environment_id) d in
    record d' {
      environments = delete_where p d.environments;
      api_keys = delete_where (λ (k : ApiKey). gone k.environment_id) d.api_keys;
      tokens = delete_where (λ (t : Token). gone t.environment_id) d.tokens;
      otps = delete_where (λ (o : Otp). gone o.environment_id) d.otps;
    }

abbrev pub is_project : ℕ → Project → Bool
is_project id p = p.id == id

unfoldable pub delete_project : ℕ → Database → Result (Unit {0}) × Database
delete_project id d =
    let gone = orphaned (is_project id) (λ (p : Project). p.id) d.projects in
    let d' = remove_environments (λ (e : Environment). gone e.project_id) d in
    (
      if count_where (is_project id) d.projects == 0 then err not_found else ok tt,
      record d' { projects = delete_where (is_project id) d.projects },
    )

abbrev pub env_is : ℕ → Str → Environment → Bool
env_is project slug e = e.project_id == project && str_eq e.slug slug

unfoldable pub create_environment : ℕ → ℕ → Str → Database → Result Environment × Database
create_environment ts project slug d =
    if is_some (select_row (env_is project slug) d.environments)
    then (err duplicate, d)
    else if is_none (select_row (is_project project) d.projects)
    then (err failure, d)
    else let e : Environment = record {
      id = next_rowid (λ (e : Environment). e.id) d.environments;
      project_id = project;
      slug = slug;
      created_at = ts;
    } in
      (ok e, record d { environments = d.environments ++ e ∷ [] })

unfoldable pub list_environments : ℕ → Database → List Environment
list_environments project d =
    sort_by
      (λ (a : Environment) (b : Environment).
        ltb a.created_at b.created_at || (a.created_at == b.created_at && ltb a.id b.id))
      (select (λ (e : Environment). e.project_id == project) d.environments)

unfoldable pub get_environment : ℕ → Str → Database → Result Environment
get_environment project slug d = elim (select_row (env_is project slug) d.environments) [
  | none ↦ err not_found
  | some e ↦ ok e
]

abbrev pub is_environment : ℕ → Environment → Bool
is_environment id e = e.id == id

unfoldable pub get_environment_by_id : ℕ → Database → Result Environment
get_environment_by_id id d = elim (select_row (is_environment id) d.environments) [
  | none ↦ err not_found
  | some e ↦ ok e
]

unfoldable pub delete_environment : ℕ → Database → Result (Unit {0}) × Database
delete_environment id d = (
  if count_where (is_environment id) d.environments == 0 then err not_found else ok tt,
  remove_environments (is_environment id) d,
)

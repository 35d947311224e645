-- ===== src/Panel/Projects.antt =====
-- internal/ui/projects.go: the pages of the projects and of one project's environments.
use tokenzy.Prelude.{ℕ, not, Option, none, some, List, [], map, is_nil, if◌then◌else◌}
use tokenzy.Prelude.Str.{Str, codes}
use tokenzy.Prelude.Text.{trim_space}
use tokenzy.Model.{Project, Environment, valid_slug}
use tokenzy.Token.Status.{statuses}
use tokenzy.Db.{Database, ok, err, duplicate}
use tokenzy.Db.Tokens.{count_tokens_by_status}
use tokenzy.Db.Projects as Store
use tokenzy.Db.Projects.{list_projects, list_environments}
use tokenzy.Panel.{
  Request, unix, Answer, page, fragment, internal_error, Layout, layout_for, resolve_project,
  resolve_env, reading, writing, settled, format_time,
}
use tokenzy.Panel.Links.{total}

pub record ProjectRow : Type 0 where
  pub project : Project
  pub created : Str
  pub envs : List Environment

-- Why a form is refused.
pub data FormError : Type 0 where
  invalid_slug empty_name : FormError
  taken : Str → FormError

pub record ProjectsView : Type 0 where
  pub layout : Layout
  pub rows : List ProjectRow
  pub error : Option FormError

pub record EnvRow : Type 0 where
  pub project : Str
  pub env : Environment
  pub created : Str
  pub tokens : ℕ

pub record ProjectView : Type 0 where
  pub layout : Layout
  pub rows : List EnvRow
  pub error : Option FormError

unfoldable pub projects_view : (ℕ → Str) → Request → Option FormError → Database → ProjectsView
projects_view print r error d = record {
  layout = layout_for r (codes "Projects") none none [] [];
  rows =
      map
        (λ (p : Project). record {
          project = p;
          created = format_time print p.created_at;
          envs = list_environments p.id d;
        })
        (list_projects d);
  error = error;
}

-- `renderProjectsPanel`
unfoldable pub render_projects_panel :
    (ℕ → Str) → Request → Option FormError → Database → Answer ProjectsView
render_projects_panel print r error d =
    fragment 200 (codes "projects_panel") (projects_view print r error d)

unfoldable pub projects_page : (ℕ → Str) → Request → Database → Answer ProjectsView
projects_page print r d = page 200 (codes "projects.html") (projects_view print r none d)

-- `createProject`, on the fields `slug` and `name`. The new project has one more environment, whose
-- INSERT meets no constraint; so the only error is the slug's.
unfoldable pub create_project :
    (ℕ → Str) → Request → Str → Str → Database → Answer ProjectsView × Database
create_project print r raw_slug raw_name d =
    let slug = trim_space raw_slug in
    let name = trim_space raw_name in
    if not (valid_slug slug)
    then (render_projects_panel print r (some invalid_slug) d, d)
    else if is_nil name
    then (render_projects_panel print r (some empty_name) d, d)
    else let (res, d') = Store.create_project (unix r) slug name d in
      elim res [
        | ok p ↦ (render_projects_panel print r none d', d')
        | err duplicate ↦ (render_projects_panel print r (some (taken slug)) d', d')
        | err _ ↦ (internal_error, d')
      ]

unfoldable pub delete_project : (ℕ → Str) → Request → Database → Answer ProjectsView × Database
delete_project print r d = writing (resolve_project r d) d λ p.
    let (res, d') = Store.delete_project p.id d in
    settled res (render_projects_panel print r none d') d'

-- How many tokens an environment holds.
unfoldable pub token_total : ℕ → ℕ → Database → ℕ
token_total now env d = total (count_tokens_by_status now env d) statuses

unfoldable pub project_view :
    (ℕ → Str) → Request → Project → Option FormError → Database → ProjectView
project_view print r p error d = record {
  layout = layout_for r p.name (some p) none [] [];
  rows =
      map
        (λ (e : Environment). record {
          project = p.slug;
          env = e;
          created = format_time print e.created_at;
          tokens = token_total (unix r) e.id d;
        })
        (list_environments p.id d);
  error = error;
}

-- `renderEnvsPanel`
unfoldable pub render_envs_panel :
    (ℕ → Str) → Request → Project → Option FormError → Database → Answer ProjectView
render_envs_panel print r p error d =
    fragment 200 (codes "envs_panel") (project_view print r p error d)

unfoldable pub project_page : (ℕ → Str) → Request → Database → Answer ProjectView
project_page print r d =
    reading (resolve_project r d)
      λ p. page 200 (codes "project.html") (project_view print r p none d)

-- `createEnvironment`, on the field `slug`.
unfoldable pub create_environment :
    (ℕ → Str) → Request → Str → Database → Answer ProjectView × Database
create_environment print r raw_slug d = writing (resolve_project r d) d λ p.
    let slug = trim_space raw_slug in
    if not (valid_slug slug)
    then (render_envs_panel print r p (some invalid_slug) d, d)
    else let (res, d') = Store.create_environment (unix r) p.id slug d in
      elim res [
        | ok e ↦ (render_envs_panel print r p none d', d')
        | err duplicate ↦ (render_envs_panel print r p (some (taken slug)) d', d')
        | err _ ↦ (internal_error, d')
      ]

unfoldable pub delete_environment : (ℕ → Str) → Request → Database → Answer ProjectView × Database
delete_environment print r d = writing (resolve_env r d) d λ scope.
    let (res, d') = Store.delete_environment scope.env.id d in
    settled res (render_envs_panel print r scope.project none d') d'

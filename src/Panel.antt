-- ===== src/Panel.antt =====
-- internal/ui/ui.go: the parts that the pages of the panel share. An answer is the name of the
-- template with its status and its view; what the templates print is not modelled, nor an error in
-- one. A handler that only reads returns no database.
pub mod Links
pub mod Shows
pub mod Login
pub mod Projects
pub mod Keys
pub mod Tokens
pub mod Otps
pub mod Webhooks
pub mod Masked
use tokenzy.Prelude.{
  ℕ, ◌/◌, ◌+◌, Bool, Option, none, some, List, [], ◌∷◌, ◌++◌, ◌==◌, if◌then◌else◌,
}
use tokenzy.Prelude.Int.{ℤ, pos_part}
use tokenzy.Prelude.Str.{Str}
use tokenzy.Ttl.{second}
use tokenzy.Model.{User, Project, Environment}
use tokenzy.Db.{Database, Result, ok, err, not_found, duplicate, failure}
use tokenzy.Db.Projects.{get_project_by_slug, get_environment, list_environments}

-- What a handler reads of a request that the gate has let through: the user in its context, the path
-- values, the header of htmx, and the time in nanoseconds.
pub record Request : Type 0 where
  pub user : Option User
  pub slug : Str
  pub env : Str
  pub id : Str
  pub htmx : Bool
  pub now : ℕ

abbrev pub unix : Request → ℕ
unix r = r.now / second

-- `time.Now().Add(ttl).Unix()`
abbrev pub expiry : Request → ℤ → ℕ
expiry r ttl = (r.now + pos_part ttl) / second

pub data Answer {ℓ} (A : Type ℓ) : Type ℓ where
  page : ℕ → Str → A → Answer A
  fragment : ℕ → Str → A → Answer A
  redirect : Str → Answer A
  bad_request unknown internal_error : Answer A

-- `renderListing`
unfoldable pub render_listing {ℓ} : {A : Type ℓ} → Request → Str → Str → A → Answer A
render_listing r page_name fragment_name view =
    if r.htmx then fragment 200 fragment_name view else page 200 page_name view

pub record Layout : Type 0 where
  pub title : Str
  pub user : Str
  pub project : Option Project
  pub env : Option Environment
  pub envs : List Environment
  pub tab : Str

-- `layoutFor`
unfoldable pub layout_for :
    Request → Str → Option Project → Option Environment → List Environment → Str → Layout
layout_for r title project env envs tab = record {
  title = title;
  user = elim r.user [ none ↦ [] | some u ↦ u.username ];
  project = project;
  env = env;
  envs = envs;
  tab = tab;
}

-- `envScope`
pub record Scope : Type 0 where
  pub project : Project
  pub env : Environment
  pub envs : List Environment

-- What a resolver hands on, or the answer that it has written.
pub data Resolved {ℓ} (A : Type ℓ) : Type ℓ where
  found : A → Resolved A
  missing failed : Resolved A

unfoldable pub resolve_project : Request → Database → Resolved Project
resolve_project r d = elim (get_project_by_slug r.slug d) [
  | ok p ↦ found p
  | err not_found ↦ missing
  | err _ ↦ failed
]

unfoldable pub resolve_env : Request → Database → Resolved Scope
resolve_env r d = elim (resolve_project r d) [
  | found p ↦ elim (get_environment p.id r.env d) [
    | ok e ↦ found (record { project = p; env = e; envs = list_environments p.id d })
    | err not_found ↦ missing
    | err _ ↦ failed
  ]
  | missing ↦ missing
  | failed ↦ failed
]

-- `if !ok { return }` behind a resolver, in a handler that reads and in one that writes.
abbrev pub reading {ℓ κ} : {S : Type ℓ} {A : Type κ} → Resolved S → (S → Answer A) → Answer A
reading (found s) k = k s
reading missing k = unknown
reading failed k = internal_error

abbrev pub writing {ℓ} :
    {S : Type ℓ} {A : Type 0}
    → Resolved S
    → Database
    → (S → Answer A × Database)
    → Answer A × Database
writing (found s) d k = k s
writing missing d k = (unknown, d)
writing failed d k = (internal_error, d)

-- `if err != nil && !errors.Is(err, db.ErrNotFound)` behind a write, and the answer else.
abbrev pub settled {ℓ} :
    {A : Type 0} {B : Type ℓ} → Result B → Answer A → Database → Answer A × Database
settled (ok x) answer d = (answer, d)
settled (err not_found) answer d = (answer, d)
settled (err duplicate) answer d = (internal_error, d)
settled (err failure) answer d = (internal_error, d)

-- `formatTime`, where the argument prints an instant in the local time zone.
unfoldable pub format_time : (ℕ → Str) → ℕ → Str
format_time print ts = if ts == 0 then [] else print ts

-- An em dash in UTF-8.
abbrev pub dash : Str
dash = 0xe2 ∷ 0x80 ∷ 0x94 ∷ []

-- `formatTimePtr`
unfoldable pub format_time_ptr : (ℕ → Str) → Option ℕ → Str
format_time_ptr print none = dash
format_time_ptr print (some ts) = format_time print ts

-- The middle dot of the titles, between blanks.
abbrev pub titled : Str → Project → Str
titled s p = s ++ (b' ' ∷ 0xc2 ∷ 0xb7 ∷ b' ' ∷ p.name)

-- ===== src/Db/Projects/Links.antt =====
-- Referential integrity: every row refers to a row that exists.
use tokenzy.Prelude.{
  ℕ, ◌≡◌, Bool, true, false, List, [], ◌∷◌, arith, is_some, ◌==◌, All, Bool-cases, inl, inr,
}
use tokenzy.Prelude.Table.{select_row, delete_where, orphaned, All-delete_where}
use tokenzy.Model.{Project, Environment, ApiKey, Token, Otp, WebhookDelivery}
use tokenzy.Db.{Database, WebhookRow}
use tokenzy.Db.Webhooks.{by_id, remove_webhooks, delete_webhook}
use tokenzy.Db.Projects.{
  remove_environments, delete_project, delete_environment, is_project, is_environment,
}

module _ {ℓ κ} {A : Type ℓ} {B : Type κ} (key : A → ℕ) (foreign : B → ℕ) where
  -- Some parent has the key.
  abbrev pub has_parent : List A → B → Bool
  has_parent parents b = is_some (select_row (λ a. key a == foreign b) parents)

  abbrev pub IsLinked : List A → List B → Type 0
  IsLinked parents children = All (λ b. has_parent parents b ≡ true) children

  parent-kept :
      (p : A → Bool) (parents : List A) (b : B)
      → has_parent parents b ≡ true
      → orphaned p key parents (foreign b) ≡ false
      → has_parent (delete_where p parents) b ≡ true
  unfolding orphaned select_row delete_where
  parent-kept p [] b h k = h
  parent-kept p (a ∷ parents) b h k = ground (arith, parent-kept p parents b)

  pub cascade-IsLinked :
      (p : A → Bool) (parents : List A) (children : List B)
      → IsLinked parents children
      → IsLinked
          (delete_where p parents)
          (delete_where (λ b. orphaned p key parents (foreign b)) children)
  unfolding delete_where
  cascade-IsLinked p parents [] h = tt
  cascade-IsLinked p parents (b ∷ children) h =
      elim (Bool-cases (orphaned p key parents (foreign b))) [
        | inl e ↦ rw e (cascade-IsLinked p parents children h.1)
        | inr e ↦ rw e (parent-kept p parents b h.0 e, cascade-IsLinked p parents children h.1)
      ]

abbrev EnvLinked {ℓ} : {B : Type ℓ} → (B → ℕ) → List Environment → List B → Type 0
EnvLinked foreign es = IsLinked (λ (e : Environment). e.id) foreign es

-- Keys, tokens, codes and webhooks refer to environments, and deliveries to webhooks.
abbrev pub IsIntactBelow : Database → Type 0
IsIntactBelow d =
    EnvLinked (λ (k : ApiKey). k.environment_id) d.environments d.api_keys
    × EnvLinked (λ (t : Token). t.environment_id) d.environments d.tokens
    × EnvLinked (λ (o : Otp). o.environment_id) d.environments d.otps
    × EnvLinked (λ (w : WebhookRow). w.environment_id) d.environments d.webhooks
    × IsLinked (λ (w : WebhookRow). w.id) (λ (x : WebhookDelivery). x.webhook_id) d.webhooks
        d.deliveries

-- And environments refer to projects.
abbrev pub IsIntact : Database → Type 0
IsIntact d =
    IsLinked (λ (p : Project). p.id) (λ (e : Environment). e.project_id) d.projects d.environments
    × (IsIntactBelow d)

remove_environments-IsIntactBelow :
    (p : Environment → Bool) (d : Database)
    → IsIntactBelow d
    → IsIntactBelow (remove_environments p d)
unfolding remove_environments remove_webhooks
remove_environments-IsIntactBelow p d (k, t, o, w, x) = (
  cascade-IsLinked _ (λ (k : ApiKey). k.environment_id) p d.environments d.api_keys k,
  cascade-IsLinked _ (λ (t : Token). t.environment_id) p d.environments d.tokens t,
  cascade-IsLinked _ (λ (o : Otp). o.environment_id) p d.environments d.otps o,
  cascade-IsLinked _ (λ (w : WebhookRow). w.environment_id) p d.environments d.webhooks w,
  cascade-IsLinked _ (λ (x : WebhookDelivery). x.webhook_id) _ d.webhooks d.deliveries x,
)

-- Deleting a project, an environment or a webhook leaves no row behind that refers to a row which is
-- gone, through all levels: environments, keys, tokens, codes, webhooks and their deliveries.
pub deletions-IsIntact :
    (id env : ℕ) (d : Database)
    → IsIntact d
    → IsIntact (delete_project id d).1
      × IsIntact (delete_environment id d).1
      × IsIntact (delete_webhook id env d).1
unfolding delete_project delete_environment delete_webhook remove_environments remove_webhooks
deletions-IsIntact id env d (e, below) =
    let (k, t, o, w, x) = below in
    (
      (
        cascade-IsLinked _ (λ (e : Environment). e.project_id) (is_project id) d.projects
            d.environments e,
        remove_environments-IsIntactBelow _ d below,
      ),
      (
        All-delete_where _ (is_environment id) d.environments e,
        remove_environments-IsIntactBelow (is_environment id) d below,
      ),
      (
        e,
        (
          k,
          t,
          o,
          All-delete_where _ (by_id id env) d.webhooks w,
          cascade-IsLinked _ (λ (x : WebhookDelivery). x.webhook_id) (by_id id env) d.webhooks
              d.deliveries x,
        ),
      ),
    )

-- ===== src/Db/Projects/HookLinks.antt =====
-- Webhooks and deliveries keep their parents under the queries that write them.
use tokenzy.Prelude.{
  ℕ, ◌≡◌, refl, Bool, true, not, Option, List, [], ◌∷◌, arith, is_none, ◌==◌, All-append, All-map,
  Bool-cases, inl, inr,
}
use tokenzy.Prelude.Str.{Str}
use tokenzy.Prelude.Table.{select_row, next_rowid, update_where, All-update_where, All-delete_limit}
use tokenzy.Model.{WebhookDelivery}
use tokenzy.Db.{Database, WebhookRow}
use tokenzy.Db.Webhooks.{
  HeaderJson, env_exists, create_webhook, new_row, set_webhook_enabled, enqueue_delivery,
  record_delivery_result, by_id, delete_old_deliveries, is_old,
}
use tokenzy.Db.Projects.Links.{has_parent, IsIntact}
use tokenzy.Db.Projects.TokenLinks.{parent-append}

-- An update that leaves the key alone takes no parent away.
parent-update {ℓ κ} :
    {A : Type ℓ} {B : Type κ} (key : A → ℕ) (foreign : B → ℕ) (p : A → Bool) (f : A → A)
    (parents : List A) (b : B)
    → ((a : A) → key (f a) ≡ key a)
    → has_parent key foreign parents b ≡ true
    → has_parent key foreign (update_where p f parents) b ≡ true
unfolding select_row update_where
parent-update key foreign p f [] b k h = h
parent-update key foreign p f (a ∷ parents) b k h =
    ground (arith, k a, parent-update key foreign p f parents b k)

module _ (d : Database) (intact : IsIntact d) where
  pub enqueue_delivery-IsIntact :
      (ts webhook : ℕ) (event_id event_type payload : Str)
      → IsIntact (enqueue_delivery ts webhook event_id event_type payload d).1
  unfolding enqueue_delivery
  enqueue_delivery-IsIntact ts webhook event_id event_type payload =
      let (e, (k, t, o, w, x)) = intact in
      elim (Bool-cases (is_none (select_row (λ (w : WebhookRow). w.id == webhook) d.webhooks))) [
        | inl f ↦ rw (f, enqueue_delivery) intact
        | inr f ↦
            rw (f, enqueue_delivery)
              (e, (k, t, o, w, All-append _ d.deliveries _ x (ground arith, tt)))
      ]

  pub record_delivery_result-IsIntact :
      (ts id attempt status : ℕ) (error : Str) (next : Option ℕ) (delivered : Bool)
      → IsIntact (record_delivery_result ts id attempt status error next delivered d)
  unfolding record_delivery_result
  record_delivery_result-IsIntact ts id attempt status error next delivered =
      let (e, (k, t, o, w, x)) = intact in
      (e, (k, t, o, w, All-update_where _ _ _ d.deliveries (λ r _ h. h) x))

  pub delete_old_deliveries-IsIntact :
      (before limit : ℕ) → IsIntact (delete_old_deliveries before limit d).1
  unfolding delete_old_deliveries
  delete_old_deliveries-IsIntact before limit =
      let (e, (k, t, o, w, x)) = intact in
      (e, (k, t, o, w, All-delete_limit _ limit (is_old before) d.deliveries x))

  pub create_webhook-IsIntact :
      (json : HeaderJson) (ts env : ℕ) (url secret : Str) (events : List Str)
      (headers : List (Str × Str)) (label : Str) (include_payload : Bool)
      → IsIntact (create_webhook json ts env url secret events headers label include_payload d).1
  unfolding create_webhook
  create_webhook-IsIntact json ts env url secret events headers label include_payload =
      let (e, (k, t, o, w, x)) = intact in
      elim (Bool-cases (not (env_exists env d.environments))) [
        | inl f ↦ rw (f, create_webhook) intact
        | inr f ↦
            let id = next_rowid (λ (w : WebhookRow). w.id) d.webhooks in
            let row = new_row json ts id env url secret events headers label include_payload in
            rw (f, create_webhook)
              (
                e,
                (
                  k,
                  t,
                  o,
                  All-append _ d.webhooks _ w (ground arith, tt),
                  All-map _ _ d.deliveries
                      (λ r.
                        parent-append (λ (w : WebhookRow). w.id)
                          (λ (x : WebhookDelivery). x.webhook_id) row d.webhooks r)
                      x,
                ),
              )
      ]

  pub set_webhook_enabled-IsIntact :
      (ts id env : ℕ) (enabled : Bool) → IsIntact (set_webhook_enabled ts id env enabled d).1
  unfolding set_webhook_enabled
  set_webhook_enabled-IsIntact ts id env enabled =
      let (e, (k, t, o, w, x)) = intact in
      (
        e,
        (
          k,
          t,
          o,
          All-update_where _ (by_id id env) _ d.webhooks (λ r _ h. h) w,
          All-map _ _ d.deliveries
              (λ r.
                parent-update (λ (w : WebhookRow). w.id) (λ (x : WebhookDelivery). x.webhook_id)
                  (by_id id env) _ d.webhooks r (λ a. refl))
              x,
        ),
      )

-- ===== src/Webhook/Request/Signature.antt =====
-- The headers that a receiver can rely on.
use tokenzy.Prelude.{ℕ, ◌≡◌, refl, ◌∙◌, false, some, List, [], ◌∷◌, arith, Bool-cases, inl, inr}
use tokenzy.Prelude.Str.{Str, codes, str_eq, str_eq-eq, str_eq_refl}
use tokenzy.Prelude.Decimal.{show_nat}
use tokenzy.Model.{Webhook, WebhookDelivery}
use tokenzy.Webhook.Headers.{assign}
use tokenzy.Webhook.Request.{
  Net, lookup, set_header, canonical, canonical_loop, sign, build_request,
}

lookup-assign_same :
    (name value : Str) (m : List (Str × Str)) → lookup name (assign name value m) ≡ some value
unfolding lookup assign
lookup-assign_same name value [] = rw (str_eq_refl name)
lookup-assign_same name value ((k, v) ∷ m) = elim (Bool-cases (str_eq k name)) [
  | inl e ↦ rw e (rw e)
  | inr e ↦ rw e (rw e (lookup-assign_same name value m))
]

lookup-assign_other :
    (name other value : Str) (m : List (Str × Str))
    → str_eq other name ≡ false
    → lookup name (assign other value m) ≡ lookup name m
unfolding lookup assign
lookup-assign_other name other value [] h = rw h
lookup-assign_other name other value ((k, v) ∷ m) h = elim (Bool-cases (str_eq k other)) [
  | inl e ↦ ground (arith, str_eq-eq k other)
  | inr e ↦ ground (arith, lookup-assign_other name other value m h)
]

-- Whatever headers the webhook has of its own, each request carries the body of the delivery and, to
-- be read under their names, the signature of that body under the webhook's secret, the number of
-- the attempt, the type and the id of the event, and our content type and agent.
pub build_request-headers :
    (net : Net) (hook : Webhook) (delivery : WebhookDelivery) (attempt : ℕ)
    → let r = build_request net hook delivery attempt in
      (lookup (codes "X-Webhook-Signature") r.headers ≡ some (sign net hook.secret r.body))
      × (lookup (codes "X-Webhook-Attempt") r.headers ≡ some (show_nat attempt))
      × (lookup (codes "X-Webhook-Event") r.headers ≡ some delivery.event_type)
      × (lookup (codes "X-Webhook-Id") r.headers ≡ some delivery.event_id)
      × (lookup (codes "User-Agent") r.headers ≡ some (codes "tokenzy-webhook/1"))
      × (lookup (codes "Content-Type") r.headers ≡ some (codes "application/json; charset=utf-8"))
      × (r.body ≡ delivery.payload)
unfolding build_request set_header canonical canonical_loop str_eq
build_request-headers net hook delivery attempt = (
  lookup-assign_same (codes "X-Webhook-Signature") _ _,
  lookup-assign_other (codes "X-Webhook-Attempt") (codes "X-Webhook-Signature") _ _ refl
      ∙ lookup-assign_same (codes "X-Webhook-Attempt") _ _,
  lookup-assign_other (codes "X-Webhook-Event") (codes "X-Webhook-Signature") _ _ refl
      ∙ lookup-assign_other (codes "X-Webhook-Event") (codes "X-Webhook-Attempt") _ _ refl
      ∙ lookup-assign_same (codes "X-Webhook-Event") _ _,
  lookup-assign_other (codes "X-Webhook-Id") (codes "X-Webhook-Signature") _ _ refl
      ∙ lookup-assign_other (codes "X-Webhook-Id") (codes "X-Webhook-Attempt") _ _ refl
      ∙ lookup-assign_other (codes "X-Webhook-Id") (codes "X-Webhook-Event") _ _ refl
      ∙ lookup-assign_same (codes "X-Webhook-Id") _ _,
  lookup-assign_other (codes "User-Agent") (codes "X-Webhook-Signature") _ _ refl
      ∙ lookup-assign_other (codes "User-Agent") (codes "X-Webhook-Attempt") _ _ refl
      ∙ lookup-assign_other (codes "User-Agent") (codes "X-Webhook-Event") _ _ refl
      ∙ lookup-assign_other (codes "User-Agent") (codes "X-Webhook-Id") _ _ refl
      ∙ lookup-assign_same (codes "User-Agent") _ _,
  lookup-assign_other (codes "Content-Type") (codes "X-Webhook-Signature") _ _ refl
      ∙ lookup-assign_other (codes "Content-Type") (codes "X-Webhook-Attempt") _ _ refl
      ∙ lookup-assign_other (codes "Content-Type") (codes "X-Webhook-Event") _ _ refl
      ∙ lookup-assign_other (codes "Content-Type") (codes "X-Webhook-Id") _ _ refl
      ∙ lookup-assign_other (codes "Content-Type") (codes "User-Agent") _ _ refl
      ∙ lookup-assign_same (codes "Content-Type") _ _,
  refl,
)

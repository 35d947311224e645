-- ===== src/Db/Projects/Integrity.antt =====
-- Referential integrity under every write of internal/db, in any order.
use tokenzy.Prelude.{ℕ, Bool, Option, List, [], ◌∷◌}
use tokenzy.Prelude.Str.{Str}
use tokenzy.Db.{Database}
use tokenzy.Db.Projects.{create_project, create_environment, delete_project, delete_environment}
use tokenzy.Db.Keys.{create_api_key, revoke_api_key, delete_api_key}
use tokenzy.Db.Webhooks.{
  HeaderJson, create_webhook, set_webhook_enabled, delete_webhook, enqueue_delivery,
  record_delivery_result, delete_old_deliveries,
}
use tokenzy.Db.Tokens.Trace.{TokenCall}
use tokenzy.Db.Tokens.Trace as TokenTrace
use tokenzy.Db.Otps.Trace.{OtpCall}
use tokenzy.Db.Otps.Trace as OtpTrace
use tokenzy.Db.Projects.Links.{IsIntact, deletions-IsIntact}
use tokenzy.Db.Projects.TokenLinks.{token_step-IsIntact}
use tokenzy.Db.Projects.RowLinks.{
  otp_step-IsIntact, create_project-IsIntact, create_environment-IsIntact, create_api_key-IsIntact,
  revoke_api_key-IsIntact, delete_api_key-IsIntact,
}
use tokenzy.Db.Projects.HookLinks.{
  create_webhook-IsIntact, set_webhook_enabled-IsIntact, enqueue_delivery-IsIntact,
  record_delivery_result-IsIntact, delete_old_deliveries-IsIntact,
}

-- One call that writes, with its arguments.
pub data Write : Type 0 where
  on_tokens : ℕ → TokenCall → Write
  on_otps : ℕ → OtpCall → Write
  new_project : ℕ → Str → Str → Write
  new_environment : ℕ → ℕ → Str → Write
  new_api_key : ℕ → ℕ → Str → Str → Str → Str → Write
  new_webhook : HeaderJson → ℕ → ℕ → Str → Str → List Str → List (Str × Str) → Str → Bool → Write
  new_delivery : ℕ → ℕ → Str → Str → Str → Write
  result_of : ℕ → ℕ → ℕ → ℕ → Str → Option ℕ → Bool → Write
  enable_webhook : ℕ → ℕ → ℕ → Bool → Write
  cancel_api_key : ℕ → ℕ → ℕ → Write
  drop_api_key : ℕ → ℕ → Write
  drop_project drop_environment : ℕ → Write
  drop_webhook : ℕ → ℕ → Write
  drop_old_deliveries : ℕ → ℕ → Write

abbrev pub apply : Write → Database → Database
apply (on_tokens ts c) d = TokenTrace.step ts c d
apply (on_otps ts c) d = OtpTrace.step ts c d
apply (new_project ts slug name) d = (create_project ts slug name d).1
apply (new_environment ts project slug) d = (create_environment ts project slug d).1
apply (new_api_key ts env hash prefix scope label) d =
    (create_api_key ts env hash prefix scope label d).1
apply (new_webhook json ts env url secret events headers label include_payload) d =
    (create_webhook json ts env url secret events headers label include_payload d).1
apply (new_delivery ts webhook event_id event_type payload) d =
    (enqueue_delivery ts webhook event_id event_type payload d).1
apply (result_of ts id attempt status error next delivered) d =
    record_delivery_result ts id attempt status error next delivered d
apply (enable_webhook ts id env enabled) d = (set_webhook_enabled ts id env enabled d).1
apply (cancel_api_key ts id env) d = (revoke_api_key ts id env d).1
apply (drop_api_key id env) d = (delete_api_key id env d).1
apply (drop_project id) d = (delete_project id d).1
apply (drop_environment id) d = (delete_environment id d).1
apply (drop_webhook id env) d = (delete_webhook id env d).1
apply (drop_old_deliveries before limit) d = (delete_old_deliveries before limit d).1

abbrev pub apply_all : List Write → Database → Database
apply_all [] d = d
apply_all (w ∷ ws) d = apply_all ws (apply w d)

apply-IsIntact : (w : Write) (d : Database) → IsIntact d → IsIntact (apply w d)
apply-IsIntact (on_tokens ts c) d h = token_step-IsIntact d h ts c
apply-IsIntact (on_otps ts c) d h = otp_step-IsIntact d h ts c
apply-IsIntact (new_project ts slug name) d h = create_project-IsIntact d h ts slug name
apply-IsIntact (new_environment ts project slug) d h =
    create_environment-IsIntact d h ts project slug
apply-IsIntact (new_api_key ts env hash prefix scope label) d h =
    create_api_key-IsIntact d h ts env hash prefix scope label
apply-IsIntact (new_webhook json ts env url secret events headers label include_payload) d h =
    create_webhook-IsIntact d h json ts env url secret events headers label include_payload
apply-IsIntact (new_delivery ts webhook event_id event_type payload) d h =
    enqueue_delivery-IsIntact d h ts webhook event_id event_type payload
apply-IsIntact (result_of ts id attempt status error next delivered) d h =
    record_delivery_result-IsIntact d h ts id attempt status error next delivered
apply-IsIntact (enable_webhook ts id env enabled) d h =
    set_webhook_enabled-IsIntact d h ts id env enabled
apply-IsIntact (cancel_api_key ts id env) d h = revoke_api_key-IsIntact d h ts id env
apply-IsIntact (drop_api_key id env) d h = delete_api_key-IsIntact d h id env
apply-IsIntact (drop_project id) d h = (deletions-IsIntact id 0 d h).0
apply-IsIntact (drop_environment id) d h = (deletions-IsIntact id 0 d h).1
apply-IsIntact (drop_webhook id env) d h = (deletions-IsIntact id env d h).2
apply-IsIntact (drop_old_deliveries before limit) d h =
    delete_old_deliveries-IsIntact d h before limit

-- From a database in which every row refers to one that exists, such as an empty one, no sequence of
-- writes to these tables, in any order and with any arguments, leads to one in which a row refers to
-- nothing: each environment keeps its project, each key, token, code and webhook its environment,
-- and each delivery its webhook, through creations, updates, sweeps and deletions.
pub apply_all-IsIntact : (ws : List Write) (d : Database) → IsIntact d → IsIntact (apply_all ws d)
apply_all-IsIntact [] d h = h
apply_all-IsIntact (w ∷ ws) d h = apply_all-IsIntact ws (apply w d) (apply-IsIntact w d h)

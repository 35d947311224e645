-- ===== src/Webhook.antt =====
-- internal/webhook/dispatch.go: events become delivery rows, deliveries become signed requests. The
-- HTTP client, HMAC-SHA256, encoding/json and the random bytes are arguments.
pub mod Headers
pub mod Request
pub mod Record
pub mod Target
pub mod Attempt
pub mod Loops

-- ===== src/Auth.antt =====
-- internal/auth: API keys (apikey.go) and the panel's sessions (session.go). Passwords are
-- hashed with argon2id (password.go).
pub mod Keys
pub mod Sessions
pub mod Passwords

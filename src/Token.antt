-- ===== src/Token.antt =====
-- internal/token: the status of a token, the limits on what is issued, and how a token is made.
pub mod Status
pub mod Limits
pub mod Generate
pub mod Values

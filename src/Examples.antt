-- ===== src/Examples.antt =====
-- Concrete inputs for the theorems, and tests of the definitions.
pub mod Rules
pub mod Tokens
pub mod Otps
pub mod Deliveries
pub mod Access
pub mod Api
pub mod Server
pub mod Panel
pub mod Loops

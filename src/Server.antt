-- ===== src/Server.antt =====
-- main.go: the environment variables, the configuration read from them, the accounts made from the
-- command line and the environment, and the scopes in front of the API. Listeners, flags, signals and
-- the log are left out.
pub mod Variables
pub mod Settings
pub mod Accounts
pub mod Start

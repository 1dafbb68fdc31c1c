-- ===== src/Auth.antt =====
-- The authentication service (services/auth) and the tokens it shares with the gateway (pkg/auth):
-- registration with its checks, login, refresh and logout over the users table and the denylist.
pub mod Types
pub mod Blocklist
pub mod Validate
pub mod World
pub mod Tokens
pub mod Store
pub mod Service
pub mod Handler
pub mod Toy
mod Tests

-- ===== src/Trading.antt =====
-- The trading engine (services/trading-engine/internal): orders, the store that runs one in a
-- transaction, and the service in front of it.
pub mod Types
pub mod Money
pub mod Order
pub mod Client
pub mod Postgres
pub mod Store
pub mod Service
pub mod Listing
pub mod Portfolio
mod Tests

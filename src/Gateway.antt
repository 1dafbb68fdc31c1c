-- ===== src/Gateway.antt =====
-- The gateway's middleware (services/gateway/internal/middleware): what a request is allowed to be,
-- whose it is, and how often it may come, before it is proxied.
pub mod Http
pub mod Bodies
pub mod Identity
pub mod ClientIp
pub mod RateLimit
pub mod Logins
mod Tests

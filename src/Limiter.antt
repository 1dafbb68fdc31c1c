-- ===== src/Limiter.antt =====
-- The gateway's rate limiters (services/gateway/internal/limiter): the answer that both give, the
-- fixed-window counter and the backoff over consecutive failures. An instant is the number of
-- nanoseconds since some start, a duration a signed number of them (`time.Duration`).
mod Answer
pub mod Backoff
pub mod Memory
pub use Answer.{Result, allowed, refused}

-- ===== src/Insights.antt =====
-- The report on a portfolio (services/ai-insights/internal/service): its history replayed from the
-- trade log over stored closes, and the guard that checks the replay against the live account.
pub mod Types
pub mod Calendar
pub mod Replay
pub mod Reconcile
mod Tests

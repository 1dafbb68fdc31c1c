-- ===== src/Backtest.antt =====
-- Backtesting (services/backtesting/internal/service): strategies, their indicators and signals.
pub mod Types
pub mod Indicators
pub mod Strategy
pub mod Align
pub mod Simulation

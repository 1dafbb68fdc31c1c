-- ===== src/Backtest/Types.antt =====
-- The data of a simulation (services/backtesting/internal/service/types.go).
use quantsim.Prelude.{ℕ, Option, List}
use quantsim.Prelude.Text.{Text}

pub record Bar (F : Type 0) : Type 0 where
  pub timestamp : ℕ
  pub open_price : F
  pub high : F
  pub low : F
  pub close_price : F
  pub volume : ℕ

-- `SignalNone`, `SignalBuy` and `SignalSell`
pub data Signal : Type 0 where
  hold buy_next sell_next : Signal

pub data TradeSide : Type 0 where
  bought sold : TradeSide

pub record TradeRecord (F : Type 0) : Type 0 where
  pub symbol : Text
  pub side : TradeSide
  pub bar_timestamp : ℕ
  pub price : F
  pub quantity : F
  pub realized_pl : Option F

pub record SimulationResult (F : Type 0) : Type 0 where
  pub trades : List (TradeRecord F)
  pub equity_curve : List F
  pub final_equity : F

-- ===== src/Trading/Types.antt =====
-- What the engine stores and passes around (services/trading-engine/internal/service/types.go,
-- errors.go). A UUID is a number that is only compared, an instant a number of nanoseconds.
use quantsim.Prelude.{ℕ, Option, List}
use quantsim.Prelude.Text.{Text}

-- `Side` is a string in Go, so a request may carry neither constant.
pub data Side : Type 0 where
  buy sell : Side
  other_side : Text → Side

-- The only type of order there is.
pub data OrderType : Type 0 where
  market : OrderType

pub data Status : Type 0 where
  filled rejected : Status

-- The reasons that `orders.rejection_reason` holds.
pub data Reason : Type 0 where
  symbol_unavailable upstream_unavailable insufficient_balance insufficient_position : Reason
  internal_error : Reason

-- The sentinel errors, and `database` for a failure of the infrastructure, wrapped or not.
pub data Error : Type 0 where
  err_invalid_order err_insufficient_balance err_insufficient_position : Error
  err_symbol_unavailable err_upstream_unavailable err_account_not_found : Error
  err_database : Error

pub data Result (A : Type 0) : Type 0 where
  ok : A → Result A
  err : Error → Result A

pub record Order (F : Type 0) : Type 0 where
  pub id : ℕ
  pub account_id : ℕ
  pub symbol : Text
  pub side : Side
  pub quantity : F
  pub status : Status
  pub order_type : OrderType
  pub filled_price : Option F
  pub rejection_reason : Option Reason
  pub created_at : ℕ

pub record Trade (F : Type 0) : Type 0 where
  pub id : ℕ
  pub account_id : ℕ
  pub order_id : ℕ
  pub symbol : Text
  pub side : Side
  pub quantity : F
  pub price : F
  pub realized_pl : Option F
  pub executed_at : ℕ

pub record Holding (F : Type 0) : Type 0 where
  pub symbol : Text
  pub quantity : F
  pub avg_cost : F

pub record Position (F : Type 0) : Type 0 where
  pub symbol : Text
  pub quantity : F
  pub avg_cost : F
  pub latest_price : Option F
  pub unrealized_pl : F

pub record PlaceOrderRequest (F : Type 0) : Type 0 where
  pub symbol : Text
  pub side : Side
  pub quantity : F

pub record PlaceOrderResult (F : Type 0) : Type 0 where
  pub order : Order F
  pub trade : Trade F
  pub balance : F

pub record PortfolioResponse (F : Type 0) : Type 0 where
  pub balance : F
  pub positions : List (Position F)
  pub total_equity : F
  pub total_unrealized_pl : F

pub record Account (F : Type 0) : Type 0 where
  pub id : ℕ
  pub balance : F

pub record ExecuteOrderParams (F : Type 0) : Type 0 where
  pub account_id : ℕ
  pub symbol : Text
  pub side : Side
  pub quantity : F
  pub price : F

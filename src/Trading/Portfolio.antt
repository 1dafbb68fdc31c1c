-- ===== src/Trading/Portfolio.antt =====
-- What the service reads (Trades, Orders, Positions and Portfolio of
-- services/trading-engine/internal/service/trading.go): prices that fail leave a position unpriced.
pub mod Valued
use quantsim.Prelude.{ℕ, ◌≡◌, Option, none, some, List, [], ◌∷◌}
use quantsim.Prelude.Int.{ℤ}
use quantsim.Prelude.Float.{Float, nought}
use quantsim.Prelude.Text.{Text}
use quantsim.Trading.Types.{
  Order, Trade, Result, ok, err, Account, Holding, Position, PortfolioResponse,
}
use quantsim.Trading.Order.{normalize_trade_limit}
use quantsim.Trading.Client.{Exchange, latest_price}
use quantsim.Trading.Postgres.{Server, Conn, Sql, ◌>>=◌, pure}
use quantsim.Trading.Service.{account_for_user}
use quantsim.Trading.Listing.{Collation, list_orders, list_holdings, list_trades}

-- One position, with what the look-up of its price ended in.
pub price_one : {F : Type 0} ⦃f : Float F⦄ → Holding F → Result F → Position F
price_one h (err e) = record {
  symbol = h.symbol;
  quantity = h.quantity;
  avg_cost = h.avg_cost;
  latest_price = none;
  unrealized_pl = nought;
}
price_one ⦃f⦄ h (ok latest) = record {
  symbol = h.symbol;
  quantity = h.quantity;
  avg_cost = h.avg_cost;
  latest_price = some latest;
  unrealized_pl = f.mul (f.sub latest h.avg_cost) h.quantity;
}

-- `price`: the goroutines each write their own index, so the result is in the holdings' order.
pub price : {F : Type 0} ⦃f : Float F⦄ → (Text → Exchange F) → List (Holding F) → List (Position F)
unfolding price_one
price market [] = []
price market (h ∷ hs) = price_one h (latest_price (market h.symbol)) ∷ price market hs

-- The value of one position in `Portfolio`.
pub position_value : {F : Type 0} ⦃f : Float F⦄ → Position F → F
position_value ⦃f⦄ p = elim p.latest_price [
  | none ↦ f.mul p.avg_cost p.quantity
  | some latest ↦ f.mul latest p.quantity
]

-- The loop of `Portfolio`.
pub add_positions :
    {F : Type 0} ⦃f : Float F⦄ → List (Position F) → PortfolioResponse F → PortfolioResponse F
unfolding position_value
add_positions [] acc = acc
add_positions ⦃f⦄ (p ∷ ps) acc = add_positions ps (record acc {
  total_equity = f.add acc.total_equity (position_value p);
  total_unrealized_pl = f.add acc.total_unrealized_pl p.unrealized_pl;
})

module _ {F : Type 0} ⦃f : Float F⦄ (srv : Server F) (by : Collation F)
    (market : Text → Exchange F) where
  pub positions_for : ℕ → Sql F (List (Position F))
  positions_for account = do holdings ← list_holdings srv by account; pure (price market holdings)

  pub orders : ℕ → Sql F (List (Order F))
  orders user = do account ← account_for_user srv user; list_orders srv by account.id

  pub trades : ℕ → ℤ → Sql F (List (Trade F))
  trades user limit = do
    account ← account_for_user srv user
    list_trades srv by account.id (normalize_trade_limit limit)

  pub positions : ℕ → Sql F (List (Position F))
  positions user = do account ← account_for_user srv user; positions_for account.id

  pub portfolio : ℕ → Sql F (PortfolioResponse F)
  unfolding add_positions
  portfolio user = do
    account ← account_for_user srv user
    ps ← positions_for account.id
    pure (
        add_positions ps (record {
          balance = account.balance;
          positions = ps;
          total_equity = account.balance;
          total_unrealized_pl = nought;
        }))

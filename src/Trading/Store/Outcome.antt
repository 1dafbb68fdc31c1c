-- ===== src/Trading/Store/Outcome.antt =====
-- What an order has done to the durable tables, by how it ended.
use quantsim.Prelude.{ℕ, ◌≡◌, false, none, some, ◌∷◌}
use quantsim.Prelude.Float.{Float, nought}
use quantsim.Prelude.Keys.{nat_keys}
use quantsim.Prelude.Map.{Map, lookup, insert}
use quantsim.Trading.Types.{
  Order, Side, sell, filled, rejected, Reason, insufficient_balance, insufficient_position,
  err_insufficient_balance, err_insufficient_position, Result, ok, err, ExecuteOrderParams,
  PlaceOrderResult,
}
use quantsim.Trading.Money.{weighted_avg_cost}
use quantsim.Trading.Postgres.{Server, AccountRow, PositionRow, Db}
use quantsim.Trading.Store.Statements.{held_in, position_keys}

module _ {F : Type 0} ⦃f : Float F⦄ where
  abbrev pub cash_in : Db F → ℕ → F
  cash_in db account = elim (lookup account db.accounts) [ none ↦ nought | some a ↦ a.balance ]

  -- The accounts after one balance was written.
  abbrev pub with_balance : ℕ → F → Map ℕ (AccountRow F) → Map ℕ (AccountRow F)
  with_balance account b m = elim (lookup account m) [
    | none ↦ m
    | some a ↦ insert account (record a { balance = b }) m
  ]

  -- The quantity, cost basis and balance that a fill computes, and the profit that a sell books.
  abbrev pub next_quantity : ExecuteOrderParams F → Side → PositionRow F → F
  next_quantity p sell held = f.sub held.quantity p.quantity
  next_quantity p _ held = f.add held.quantity p.quantity

  abbrev pub next_cost : ExecuteOrderParams F → Side → PositionRow F → F
  next_cost p sell held = held.avg_cost
  next_cost p _ held = weighted_avg_cost held.quantity held.avg_cost p.quantity p.price

  abbrev pub next_balance : ExecuteOrderParams F → Side → F → F
  next_balance p sell balance = f.add balance (f.mul p.price p.quantity)
  next_balance p _ balance = f.sub balance (f.mul p.price p.quantity)

  -- The check that a fill has passed: `cost > balance`, or `p.Quantity > qty`, was false.
  abbrev pub Covered : ExecuteOrderParams F → Side → Db F → Type 0
  Covered p sell db = f.lt (held_in db p.account_id p.symbol).quantity p.quantity ≡ false
  Covered p _ db = f.lt (cash_in db p.account_id) (f.mul p.price p.quantity) ≡ false

  -- A fill: one order and one trade, both of what was asked for, on its account, in its symbol and on
  -- its side, the trade of its quantity at its price as the columns hold them; one position, one balance.
  pub record Filled (srv : Server F) (p : ExecuteOrderParams F) (side : Side) (db : Db F)
      (r : PlaceOrderResult F) (db' : Db F) : Type 0 where
    pub covered : Covered p side db
    pub orders : db'.orders ≡ r.order ∷ db.orders
    pub trades : db'.trades ≡ r.trade ∷ db.trades
    pub status : r.order.status ≡ filled
    pub link : r.trade.order_id ≡ r.order.id
    pub account : (r.order.account_id ≡ p.account_id) × (r.trade.account_id ≡ p.account_id)
    pub symbol : (r.order.symbol ≡ p.symbol) × (r.trade.symbol ≡ p.symbol)
    pub way : (r.order.side ≡ p.side) × (r.trade.side ≡ p.side)
    pub asked : srv.numeric p.quantity ≡ some r.trade.quantity
    pub paid : srv.numeric p.price ≡ some r.trade.price
    pub quantity : r.trade.quantity ≡ r.order.quantity
    pub price : r.order.filled_price ≡ some r.trade.price
    pub balance : srv.numeric (next_balance p side (cash_in db p.account_id)) ≡ some r.balance
    pub accounts : db'.accounts ≡ with_balance p.account_id r.balance db.accounts
    pub held :
        srv.numeric (next_quantity p side (held_in db p.account_id p.symbol))
        ≡ some (held_in db' p.account_id p.symbol).quantity
    pub cost :
        srv.numeric (next_cost p side (held_in db p.account_id p.symbol))
        ≡ some (held_in db' p.account_id p.symbol).avg_cost
    pub positions :
        db'.positions
        ≡ insert (p.account_id, p.symbol) (held_in db' p.account_id p.symbol) db.positions

  -- A rejection: one order row with its reason, and nothing else.
  pub record Rejected (p : ExecuteOrderParams F) (reason : Reason) (db db' : Db F) : Type 0 where
    pub row : Order F
    pub only : db' ≡ record db { orders = row ∷ db.orders }
    pub status : row.status ≡ rejected
    pub why : row.rejection_reason ≡ some reason
    pub unpriced : row.filled_price ≡ none
    pub whose : row.account_id ≡ p.account_id
    pub what : row.symbol ≡ p.symbol

  abbrev pub Settles :
      Server F → ExecuteOrderParams F → Side → Db F → Result (PlaceOrderResult F) → Db F → Type 0
  Settles srv p side db (ok r) db' = Filled srv p side db r db'
  Settles srv p side db (err err_insufficient_balance) db' = Rejected p insufficient_balance db db'
  Settles srv p side db (err err_insufficient_position) db' =
      Rejected p insufficient_position db db'
  Settles srv p side db (err _) db' = db' ≡ db

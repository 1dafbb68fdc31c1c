-- ===== src/Trading/Store.antt =====
-- The store (services/trading-engine/internal/store/postgres_trading_store.go), statement by
-- statement. `ExecuteOrder` holds the account's row lock for its whole transaction, so transactions
-- on one account run one after the other.
pub mod Statements
pub mod Outcome
pub mod Effects
pub mod Reject
pub mod Buy
pub mod Sell
pub mod Atomic
pub mod Solvent
pub mod Isolation
pub mod Live
pub mod Recorded
use quantsim.Prelude.{ℕ, ◌+◌, ◌&&◌, ◌==◌, Bool, Option, none, some, List, [], ◌∷◌}
use quantsim.Prelude.Float.{Float, nought}
use quantsim.Prelude.Keys.{Eq, nat_keys}
use quantsim.Prelude.Map.{Map, lookup, insert}
use quantsim.Prelude.Text.{Text}
use quantsim.Trading.Types.{
  Order, Trade, Side, buy, sell, other_side, Status, filled, rejected, Reason, insufficient_balance,
  insufficient_position, Error, err_database, err_invalid_order, err_insufficient_balance,
  err_insufficient_position, err_account_not_found, Result, ok, err, ExecuteOrderParams,
  PlaceOrderResult, Account,
}
use quantsim.Trading.Money.{weighted_avg_cost, realized_pl}
use quantsim.Trading.Postgres.{
  Server, AccountRow, PositionRow, Db, Conn, Sql, ◌>>=◌, ◌>>◌, pure, raise, choose, statement,
  begin_tx, commit, rollback, autocommit,
}
use Statements.{
  insert_order, insert_trade, current_position, upsert_position, update_balance, lock_balance,
}

module _ {F : Type 0} ⦃f : Float F⦄ (srv : Server F) where
  pub reject_within : ExecuteOrderParams F → Reason → Sql F (Unit {0})
  reject_within p reason = do insert_order srv p rejected none (some reason); commit srv

  pub execute_buy : ExecuteOrderParams F → F → Sql F (PlaceOrderResult F)
  execute_buy p balance =
      let cost = f.mul p.price p.quantity in
      choose (f.lt balance cost)
        (do reject_within p insufficient_balance; raise err_insufficient_balance)
        (do
          order ← insert_order srv p filled (some p.price) none
          trade ← insert_trade srv p order.id none
          held ← current_position srv p.account_id p.symbol
          upsert_position srv p.account_id p.symbol (f.add held.quantity p.quantity)
              (weighted_avg_cost held.quantity held.avg_cost p.quantity p.price)
          balance' ← update_balance srv p.account_id (f.sub balance cost)
          commit srv
          pure (record { order = order; trade = trade; balance = balance' }))

  pub execute_sell : ExecuteOrderParams F → F → Sql F (PlaceOrderResult F)
  execute_sell p balance = do
    held ← current_position srv p.account_id p.symbol
    choose (f.lt held.quantity p.quantity)
        (do reject_within p insufficient_position; raise err_insufficient_position)
        (do
          order ← insert_order srv p filled (some p.price) none
          trade ← insert_trade srv p order.id (some (realized_pl held.avg_cost p.price p.quantity))
          upsert_position srv p.account_id p.symbol (f.sub held.quantity p.quantity) held.avg_cost
          balance' ← update_balance srv p.account_id (f.add balance (f.mul p.price p.quantity))
          commit srv
          pure (record { order = order; trade = trade; balance = balance' }))

  -- The `switch` on the side, under the lock.
  pub execute_side : Side → ExecuteOrderParams F → F → Sql F (PlaceOrderResult F)
  execute_side buy p balance = execute_buy p balance
  execute_side sell p balance = execute_sell p balance
  execute_side (other_side s) p balance = raise err_invalid_order

  pub execute_order : ExecuteOrderParams F → Sql F (PlaceOrderResult F)
  execute_order p c =
      let (r, c') =
        (do begin_tx srv; balance ← lock_balance srv p.account_id; execute_side p.side p balance)
          c in
      (r, rollback c')

  pub record_rejected_order : ℕ → Text → Side → F → Reason → Sql F (Order F)
  record_rejected_order account symbol side quantity reason =
      let p : ExecuteOrderParams F = record {
        account_id = account;
        symbol = symbol;
        side = side;
        quantity = quantity;
        price = nought;
      } in
      autocommit (insert_order srv p rejected none (some reason))

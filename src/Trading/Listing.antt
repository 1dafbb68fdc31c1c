-- ===== src/Trading/Listing.antt =====
-- The listings of the store (ListOrders, ListHoldings and ListTrades of
-- services/trading-engine/internal/store/postgres_trading_store.go).
pub mod Sorting
pub mod Rows
use quantsim.Prelude.{ℕ, ◌==◌, ◌&&◌, ◌||◌, Bool, List, [], ◌∷◌, if◌then◌else◌, keep, take, ltb}
use quantsim.Prelude.Int.{ℤ, pos, negsuc}
use quantsim.Prelude.Float.{Float, nought}
use quantsim.Prelude.Text.{Text}
use quantsim.Trading.Types.{Order, Trade, Result, ok, err, err_database, Holding}
use quantsim.Trading.Postgres.{Server, PositionRow, Sql, statement, autocommit}

-- How the server orders rows: the collation of symbols. Instants and ids are numbers.
pub record Collation (F : Type 0) : Type 0 where
  pub symbol_before : Text → Text → Bool

-- `ORDER BY`: rows sorted by insertion.
pub insert_by : {A : Type 0} → (A → A → Bool) → A → List A → List A
insert_by before x [] = x ∷ []
insert_by before x (y ∷ ys) =
    let rest = insert_by before x ys in if before y x then y ∷ rest else x ∷ y ∷ ys

unfoldable pub order_by : {A : Type 0} → (A → A → Bool) → List A → List A
unfolding insert_by
order_by before [] = []
order_by before (x ∷ xs) = insert_by before x (order_by before xs)

-- `(a, x) < (b, y)` of two columns
pub before_pair : ℕ → ℕ → ℕ → ℕ → Bool
before_pair a x b y = ltb a b || (a == b && ltb x y)

-- `ORDER BY created_at DESC, id DESC`
pub newer : {F : Type 0} → Order F → Order F → Bool
unfolding before_pair
newer a b = before_pair b.created_at b.id a.created_at a.id

-- `ORDER BY executed_at ASC, id ASC`
pub older : {F : Type 0} → Trade F → Trade F → Bool
unfolding before_pair
older a b = before_pair a.executed_at a.id b.executed_at b.id

-- `WHERE account_id = $1 AND quantity > 0`
pub open_of : {F : Type 0} ⦃f : Float F⦄ → ℕ → List ((ℕ × Text) × PositionRow F) → List (Holding F)
open_of account [] = []
open_of ⦃f⦄ account (((id, symbol), h) ∷ rest) =
    let later = open_of account rest in
    if id == account && f.lt nought h.quantity
    then record { symbol = symbol; quantity = h.quantity; avg_cost = h.avg_cost } ∷ later
    else later

-- `LIMIT $2` after the sort: a negative limit is an error of the server.
abbrev pub limited : {A : Type 0} → ℤ → List A → Result (List A)
limited (pos n) rows = ok (take n rows)
limited (negsuc n) rows = err err_database

module _ {F : Type 0} ⦃f : Float F⦄ (srv : Server F) (by : Collation F) where
  pub list_orders : ℕ → Sql F (List (Order F))
  unfolding order_by newer
  list_orders account = autocommit (
      statement srv λ t db.
        (ok (order_by newer (keep (λ (o : Order F). o.account_id == account) db.orders)), db))

  pub list_holdings : ℕ → Sql F (List (Holding F))
  unfolding order_by open_of
  list_holdings account = autocommit (
      statement srv λ t db. (
        ok (
            order_by (λ (a b : Holding F). by.symbol_before a.symbol b.symbol)
              (open_of account db.positions)),
        db,
      ))

  pub list_trades : ℕ → ℤ → Sql F (List (Trade F))
  unfolding order_by older
  list_trades account limit = autocommit (
      statement srv λ t db. (
        limited limit (order_by older (keep (λ (x : Trade F). x.account_id == account) db.trades)),
        db,
      ))

-- ===== src/Trading/Service.antt =====
-- The service (services/trading-engine/internal/service/trading.go) over the store: placing an order
-- and reading the account. market-data is a parameter, the exchange that a look-up of a symbol ends
-- in; so is the cache of reports, of which the service only asks that an entry is dropped.
pub mod Placed
pub mod Whole
pub mod Funds
use quantsim.Prelude.{ℕ, ◌+◌, ◌==◌, Option, none, some, List, [], ◌∷◌, Bool, if◌then◌else◌}
use quantsim.Prelude.Float.{Float, nought}
use quantsim.Prelude.Map.{Map}
use quantsim.Prelude.Text.{Text, Unicode}
use quantsim.Trading.Types.{
  Side, Reason, symbol_unavailable, upstream_unavailable, insufficient_balance,
  insufficient_position, internal_error, Error, err_insufficient_balance, err_insufficient_position,
  err_symbol_unavailable, err_upstream_unavailable, err_account_not_found, Result, ok, err, Account,
  Holding, Position, PlaceOrderRequest, PlaceOrderResult, PortfolioResponse,
}
use quantsim.Trading.Order.{validate_order}
use quantsim.Trading.Client.{Exchange, latest_price}
use quantsim.Trading.Postgres.{Server, AccountRow, Db, Conn, Sql, statement, autocommit}
use quantsim.Trading.Store.{execute_order, record_rejected_order}

-- The cache of reports: whether it fails on each of the deletions that it is asked for, how many
-- those were, and whose reports it has dropped, newest first.
pub record Cache : Type 0 where
  pub fails : ℕ → Bool
  pub asked : ℕ
  pub dropped : List ℕ

-- A deletion, which the cache may fail at
abbrev pub delete : ℕ → Cache → Cache
delete user c = record c {
  asked = c.asked + 1;
  dropped = (if c.fails c.asked then c.dropped else user ∷ c.dropped);
}

pub record World (F : Type 0) : Type 0 where
  pub conn : Conn F
  pub cache : Cache

-- `errors.Is` against each sentinel in turn.
pub rejection_reason : Error → Reason
rejection_reason err_symbol_unavailable = symbol_unavailable
rejection_reason err_upstream_unavailable = upstream_unavailable
rejection_reason err_insufficient_balance = insufficient_balance
rejection_reason err_insufficient_position = insufficient_position
rejection_reason _ = internal_error

-- `WHERE user_id = $1`
pub owned_by : {F : Type 0} → ℕ → List (ℕ × AccountRow F) → Option (Account F)
owned_by user [] = none
owned_by user ((id, a) ∷ rest) =
    let found = owned_by user rest in
    if a.user_id == user then some (record { id = id; balance = a.balance }) else found

-- A failure of the cache is logged and swallowed: the report stays.
pub invalidate_insights : {F : Type 0} → ℕ → World F → World F
invalidate_insights user w = record w { cache = delete user w.cache }

module _ {F : Type 0} ⦃f : Float F⦄ (srv : Server F) where
  pub select_account : ℕ → Sql F (Account F)
  unfolding owned_by
  select_account user = statement srv λ t db. elim (owned_by user db.accounts) [
    | none ↦ (err err_account_not_found, db)
    | some a ↦ (ok a, db)
  ]

  pub account_for_user : ℕ → Sql F (Account F)
  account_for_user user = autocommit (select_account user)

  -- The failure of the write is logged and dropped.
  pub record_rejection : ℕ → PlaceOrderRequest F → Reason → Conn F → Conn F
  record_rejection account req reason c =
      (record_rejected_order srv account req.symbol req.side req.quantity reason c).1

  -- `PlaceOrder` from the price on.
  pub fill_at :
      ℕ → Account F → PlaceOrderRequest F → F → World F → Result (PlaceOrderResult F) × World F
  unfolding invalidate_insights
  fill_at user account req price w =
      let (r, c) =
        execute_order srv
          (record {
            account_id = account.id;
            symbol = req.symbol;
            side = req.side;
            quantity = req.quantity;
            price = price;
          })
          w.conn in
      elim r [
        | err e ↦ (err e, record w { conn = c })
        | ok fill ↦ (ok fill, invalidate_insights user (record w { conn = c }))
      ]

  -- `PlaceOrder` from the account on.
  pub price_and_fill :
      ℕ
      → Account F
      → PlaceOrderRequest F
      → Result F
      → World F
      → Result (PlaceOrderResult F) × World F
  unfolding fill_at record_rejection rejection_reason
  price_and_fill user account req (err e) w =
      (err e, record w { conn = record_rejection account.id req (rejection_reason e) w.conn })
  price_and_fill user account req (ok price) w = fill_at user account req price w

  pub place_order :
      Unicode
      → (Text → Exchange F)
      → ℕ
      → PlaceOrderRequest F
      → World F
      → Result (PlaceOrderResult F) × World F
  unfolding price_and_fill account_for_user
  place_order u market user req w = elim (validate_order u req) [
    | err e ↦ (err e, w)
    | ok checked ↦
        let (r, c) = account_for_user user w.conn in
        elim r [
          | err e ↦ (err e, record w { conn = c })
          | ok account ↦
              price_and_fill user account checked (latest_price (market checked.symbol))
                (record w { conn = c })
        ]
  ]

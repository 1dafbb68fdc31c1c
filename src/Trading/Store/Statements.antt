-- ===== src/Trading/Store/Statements.antt =====
-- The statements of the store, each with its SQL's effect on the tables.

use quantsim.Prelude.{ℕ, ◌&&◌, ◌==◌, Bool, true, Option, none, some, ◌∷◌, ◌≡◌, ◌↔◌, arith}
use quantsim.Prelude.Float.{Float, nought}
use quantsim.Prelude.Keys.{Eq, nat_keys}
use quantsim.Prelude.Map.{lookup, insert}
use quantsim.Prelude.Text.{Text, text_keys, text_eq, text_eq_iff}
use quantsim.Trading.Types.{
  Order, Trade, market, Status, Reason, err_database, err_account_not_found, ok, err,
  ExecuteOrderParams,
}
use quantsim.Trading.Postgres.{Server, PositionRow, Db, Sql, statement}

-- UNIQUE (account_id, symbol)
pub same_position : ℕ × Text → ℕ × Text → Bool
same_position (a, s) (b, t) = a == b && text_eq s t

pub same_position_iff : (x y : ℕ × Text) → (same_position x y ≡ true) ↔ (x ≡ y)
unfolding same_position
same_position_iff (a, s) (b, t) = ground (arith, text_eq_iff s t)

instance abbrev pub position_keys : Eq (ℕ × Text)
position_keys = record { beq = same_position; beq_iff = same_position_iff }

-- No row is a position of nothing.
abbrev pub held_in : {F : Type 0} ⦃f : Float F⦄ → Db F → ℕ → Text → PositionRow F
held_in db account symbol = elim (lookup (account, symbol) db.positions) [
  | none ↦ record { quantity = nought; avg_cost = nought }
  | some h ↦ h
]

module _ {F : Type 0} ⦃f : Float F⦄ (srv : Server F) where
  -- A nullable NUMERIC column.
  unfoldable pub stored? : Option F → Option (Option F)
  stored? none = some none
  stored? (some x) = elim (srv.numeric x) [ none ↦ none | some y ↦ some (some y) ]

  unfoldable pub order_row :
      ℕ → ExecuteOrderParams F → Status → Option F → Option Reason → Option (Order F)
  order_row t p status price reason = elim (srv.numeric p.quantity) [
    | none ↦ none
    | some q ↦ elim (stored? price) [
      | none ↦ none
      | some pr ↦ some (record {
        id = srv.uuid t;
        account_id = p.account_id;
        symbol = p.symbol;
        side = p.side;
        quantity = q;
        status = status;
        order_type = market;
        filled_price = pr;
        rejection_reason = reason;
        created_at = srv.clock t;
      })
    ]
  ]

  unfoldable pub trade_row : ℕ → ExecuteOrderParams F → ℕ → Option F → Option (Trade F)
  trade_row t p order_id pl = elim (srv.numeric p.quantity) [
    | none ↦ none
    | some q ↦ elim (srv.numeric p.price) [
      | none ↦ none
      | some pr ↦ elim (stored? pl) [
        | none ↦ none
        | some realized ↦ some (record {
          id = srv.uuid t;
          account_id = p.account_id;
          order_id = order_id;
          symbol = p.symbol;
          side = p.side;
          quantity = q;
          price = pr;
          realized_pl = realized;
          executed_at = srv.clock t;
        })
      ]
    ]
  ]

  unfoldable pub insert_order :
      ExecuteOrderParams F → Status → Option F → Option Reason → Sql F (Order F)
  unfolding order_row stored?
  insert_order p status price reason = statement srv λ t db.
      elim (order_row t p status price reason) [
        | none ↦ (err err_database, db)
        | some o ↦ (ok o, record db { orders = o ∷ db.orders })
      ]

  unfoldable pub insert_trade : ExecuteOrderParams F → ℕ → Option F → Sql F (Trade F)
  unfolding trade_row stored?
  insert_trade p order_id pl = statement srv λ t db. elim (trade_row t p order_id pl) [
    | none ↦ (err err_database, db)
    | some r ↦ (ok r, record db { trades = r ∷ db.trades })
  ]

  -- `SELECT balance FROM accounts WHERE id = $1 FOR UPDATE`
  unfoldable pub lock_balance : ℕ → Sql F F
  lock_balance account = statement srv λ t db. elim (lookup account db.accounts) [
    | none ↦ (err err_account_not_found, db)
    | some a ↦ (ok a.balance, db)
  ]

  unfoldable pub current_position : ℕ → Text → Sql F (PositionRow F)
  current_position account symbol = statement srv λ t db. (ok (held_in db account symbol), db)

  unfoldable pub upsert_position : ℕ → Text → F → F → Sql F (Unit {0})
  upsert_position account symbol quantity avg_cost = statement srv λ t db.
      elim (srv.numeric quantity) [
        | none ↦ (err err_database, db)
        | some q ↦ elim (srv.numeric avg_cost) [
          | none ↦ (err err_database, db)
          | some a ↦ (
            ok tt,
            record db {
              positions =
                  insert (account, symbol) (record { quantity = q; avg_cost = a }) db.positions;
            },
          )
        ]
      ]

  -- `UPDATE accounts SET balance = $1 ... RETURNING balance`
  unfoldable pub update_balance : ℕ → F → Sql F F
  update_balance account balance = statement srv λ t db. elim (srv.numeric balance) [
    | none ↦ (err err_database, db)
    | some b ↦ elim (lookup account db.accounts) [
      | none ↦ (err err_database, db)
      | some a ↦
          (ok b, record db { accounts = insert account (record a { balance = b }) db.accounts })
    ]
  ]

-- ===== src/Trading/Store/Effects.antt =====
-- What each statement is known to have done, when it returned and when it raised.
use quantsim.Prelude.{ℕ, ◌≡◌, Option, some, ◌∷◌, inl, inr, Option-cases, arith}
use quantsim.Prelude.Float.{Float}
use quantsim.Prelude.Keys.{nat_keys}
use quantsim.Prelude.Map.{insert, lookup-insert_self}
use quantsim.Prelude.Text.{Text}
use quantsim.Trading.Types.{
  Order, Trade, Status, Reason, Error, err_database, ok, err, ExecuteOrderParams,
}
use quantsim.Trading.Postgres.{Server, PositionRow, Conn, statement, commit}
use quantsim.Trading.Store.Statements.{
  held_in, position_keys, insert_order, insert_trade, current_position, upsert_position,
  update_balance, stored?,
}
use quantsim.Trading.Store.Outcome.{with_balance}

module _ {F : Type 0} ⦃f : Float F⦄ (srv : Server F) (p : ExecuteOrderParams F)
    (c c' : Conn F) where
  pub insert_order-ok :
      (st : Status) (pr : Option F) (why : Option Reason) (o : Order F)
      → insert_order srv p st pr why c ≡ (ok o, c')
      → (c'.committed ≡ c.committed)
        × (c'.working ≡ record (c.working) { orders = o ∷ c.working.orders })
        × (o.status ≡ st)
        × (o.rejection_reason ≡ why)
        × (o.account_id ≡ p.account_id)
        × (o.symbol ≡ p.symbol)
        × (srv.numeric p.quantity ≡ some o.quantity)
        × (stored? srv pr ≡ some o.filled_price)
        × (o.side ≡ p.side)
  unfolding insert_order statement
  insert_order-ok st pr why o e = ground arith

  pub insert_trade-ok :
      (order_id : ℕ) (pl : Option F) (t : Trade F)
      → insert_trade srv p order_id pl c ≡ (ok t, c')
      → (c'.committed ≡ c.committed)
        × (c'.working ≡ record (c.working) { trades = t ∷ c.working.trades })
        × (t.order_id ≡ order_id)
        × (srv.numeric p.quantity ≡ some t.quantity)
        × (srv.numeric p.price ≡ some t.price)
        × (stored? srv pl ≡ some t.realized_pl)
        × (t.account_id ≡ p.account_id)
        × (t.symbol ≡ p.symbol)
        × (t.side ≡ p.side)
  unfolding insert_trade statement
  insert_trade-ok order_id pl t e = ground arith

module _ {F : Type 0} ⦃f : Float F⦄ (srv : Server F) (account : ℕ) (c c' : Conn F) where
  pub current_position-ok :
      (symbol : Text) (h : PositionRow F)
      → current_position srv account symbol c ≡ (ok h, c')
      → (c'.committed ≡ c.committed)
        × (c'.working ≡ c.working)
        × (h ≡ held_in c.working account symbol)
  unfolding current_position statement
  current_position-ok symbol h e = ground arith

  pub upsert_position-ok :
      (symbol : Text) (q a : F)
      → upsert_position srv account symbol q a c ≡ (ok tt, c')
      → (c'.committed ≡ c.committed)
        × (c'.working.accounts ≡ c.working.accounts)
        × (c'.working.orders ≡ c.working.orders)
        × (c'.working.trades ≡ c.working.trades)
        × (srv.numeric q ≡ some (held_in c'.working account symbol).quantity)
        × (srv.numeric a ≡ some (held_in c'.working account symbol).avg_cost)
        × (c'.working.positions
            ≡ insert (account, symbol) (held_in c'.working account symbol) c.working.positions)
  unfolding upsert_position statement
  upsert_position-ok symbol q a e = elim (Option-cases (srv.numeric q)) [
    | inl over ↦ ground arith
    | inr (q', eq) ↦ elim (Option-cases (srv.numeric a)) [
      | inl over ↦ ground arith
      | inr (a', ea) ↦
          let row : PositionRow F = record { quantity = q'; avg_cost = a' } in
          ground (arith, lookup-insert_self (account, symbol) row c.working.positions)
    ]
  ]

  pub update_balance-ok :
      (b stored : F)
      → update_balance srv account b c ≡ (ok stored, c')
      → (c'.committed ≡ c.committed)
        × (c'.working
            ≡ record (c.working) { accounts = with_balance account stored c.working.accounts })
        × (srv.numeric b ≡ some stored)
  unfolding update_balance statement
  update_balance-ok b stored e = ground arith

pub stored?-some :
    {F : Type 0} ⦃f : Float F⦄ (srv : Server F) (x : F) {y : F} {z : Option F}
    → srv.numeric x ≡ some y
    → stored? srv (some x) ≡ some z
    → z ≡ some y
unfolding stored?
stored?-some srv x e h = ground arith

pub commit-ok :
    {F : Type 0} (srv : Server F) (c c' : Conn F)
    → commit srv c ≡ (ok tt, c')
    → c'.committed ≡ c.working
unfolding commit
commit-ok srv c c' e = ground arith

-- A statement of an order's transaction that raises reports the database, and nothing is durable.
abbrev pub Raised : {F : Type 0} → Error → Conn F → Conn F → Type 0
Raised e c c' = (e ≡ err_database) × (c'.committed ≡ c.committed)

module _ {F : Type 0} ⦃f : Float F⦄ (srv : Server F) (c c' : Conn F) (e : Error) where
  pub insert_order-err :
      (p : ExecuteOrderParams F) (st : Status) (pr : Option F) (why : Option Reason)
      → insert_order srv p st pr why c ≡ (err e, c')
      → Raised e c c'
  unfolding insert_order statement
  insert_order-err p st pr why h = ground arith

  pub insert_trade-err :
      (p : ExecuteOrderParams F) (order_id : ℕ) (pl : Option F)
      → insert_trade srv p order_id pl c ≡ (err e, c')
      → Raised e c c'
  unfolding insert_trade statement
  insert_trade-err p order_id pl h = ground arith

  pub current_position-err :
      (account : ℕ) (symbol : Text)
      → current_position srv account symbol c ≡ (err e, c')
      → Raised e c c'
  unfolding current_position statement
  current_position-err account symbol h = ground arith

  pub upsert_position-err :
      (account : ℕ) (symbol : Text) (q a : F)
      → upsert_position srv account symbol q a c ≡ (err e, c')
      → Raised e c c'
  unfolding upsert_position statement
  upsert_position-err account symbol q a h = ground arith

  pub update_balance-err :
      (account : ℕ) (b : F) → update_balance srv account b c ≡ (err e, c') → Raised e c c'
  unfolding update_balance statement
  update_balance-err account b h = ground arith

  pub commit-err : commit srv c ≡ (err e, c') → Raised e c c'
  unfolding commit
  commit-err h = ground arith

-- ===== src/Trading/Store/Atomic.antt =====
-- `ExecuteOrder` as a whole: whatever fails, and wherever, the durable tables show a complete fill,
-- a recorded rejection, or nothing.
use mathlib.Core.Path.{subst}
use quantsim.Prelude.{ℕ, ◌≡◌, refl, sym, ap, ◌∙◌, arith}
use quantsim.Prelude.Float.{Float}
use quantsim.Prelude.Keys.{nat_keys}
use quantsim.Trading.Types.{
  Side, buy, sell, other_side, Error, err_account_not_found, err_database, ExecuteOrderParams,
  PlaceOrderResult, Result, ok, err,
}
use quantsim.Trading.Postgres.{Server, Db, Conn, statement, begin_tx, rollback, ◌>>=◌, >>=-post}
use quantsim.Trading.Store.{execute_order, execute_side}
use quantsim.Trading.Store.Statements.{lock_balance}
use quantsim.Trading.Store.Buy.{execute_buy-Settles}
use quantsim.Trading.Store.Sell.{execute_sell-Settles}
use quantsim.Trading.Store.Outcome.{cash_in, Settles}

module _ {F : Type 0} ⦃f : Float F⦄ (srv : Server F) where
  begin_tx-ok :
      (c c' : Conn F)
      → begin_tx srv c ≡ (ok tt, c')
      → (c'.committed ≡ c.committed) × (c'.working ≡ c.committed)
  unfolding begin_tx
  begin_tx-ok c c' h = ground arith

  begin_tx-err :
      (c c' : Conn F) (e : Error)
      → begin_tx srv c ≡ (err e, c')
      → (e ≡ err_database) × (c'.committed ≡ c.committed)
  unfolding begin_tx
  begin_tx-err c c' e h = ground arith

  lock_balance-ok :
      (account : ℕ) (c c' : Conn F) (b : F)
      → lock_balance srv account c ≡ (ok b, c')
      → (c'.committed ≡ c.committed) × (c'.working ≡ c.working) × (b ≡ cash_in c.working account)
  unfolding lock_balance statement
  lock_balance-ok account c c' b h = ground arith

  -- A missing account is told from a failure of the database.
  Unlocked : Error → Type 0
  Unlocked err_account_not_found = Unit
  Unlocked err_database = Unit
  Unlocked _ = ⊥

  lock_balance-err :
      (account : ℕ) (c c' : Conn F) (e : Error)
      → lock_balance srv account c ≡ (err e, c')
      → Unlocked e × (c'.committed ≡ c.committed)
  unfolding lock_balance statement Unlocked
  lock_balance-err account c c' e h = ground arith

  Unlocked-Settles :
      (p : ExecuteOrderParams F) (side : Side) (db db' : Db F) (e : Error)
      → Unlocked e
      → db' ≡ db
      → Settles srv p side db (err e) db'
  unfolding Unlocked
  Unlocked-Settles p side db db' err_account_not_found u h = h
  Unlocked-Settles p side db db' err_database u h = h
  Unlocked-Settles p side db db' _ u h = absurd u

  execute_side-Settles :
      (side : Side) (p : ExecuteOrderParams F) (c : Conn F)
      → c.working ≡ c.committed
      → let (r, c') = execute_side srv side p (cash_in c.working p.account_id) c in
        Settles srv p side c.committed r c'.committed
  unfolding execute_side
  execute_side-Settles buy p c start = execute_buy-Settles srv p c start
  execute_side-Settles sell p c start = execute_sell-Settles srv p c start
  execute_side-Settles (other_side s) p c start = refl

  -- Every call of `ExecuteOrder` settles, whichever of its statements fail and whatever the columns
  -- can hold. A result means that the durable tables hold exactly its order and trade, the balance
  -- that it reports and the new position, and that the account covered it; an insufficient balance
  -- or position means that one rejected order with that reason was added and nothing else changed;
  -- any other error means that the durable tables are as they were.
  pub execute_order-Settles :
      (p : ExecuteOrderParams F) (c : Conn F)
      → let (r, c') = execute_order srv p c in Settles srv p p.side c.committed r c'.committed
  unfolding execute_order rollback
  execute_order-Settles p c =
      let P = λ (r : Result (PlaceOrderResult F)) (c' : Conn F).
        Settles srv p p.side c.committed r c'.committed in
      >>=-post P (begin_tx srv)
        (λ _. do b ← lock_balance srv p.account_id; execute_side srv p.side p b) c
        (λ e c1 h. let bad = begin_tx-err c c1 e h in rw (bad.0) (bad.1))
        λ u c1 h.
          let (same1, start) = begin_tx-ok c c1 h in
          >>=-post P (lock_balance srv p.account_id) (execute_side srv p.side p) c1
            (λ e c2 k.
              let bad = lock_balance-err p.account_id c1 c2 e k in
              Unlocked-Settles p p.side c.committed c2.committed e bad.0 (bad.1 ∙ same1))
            λ b c2 k.
              let (same2, work, balance) = lock_balance-ok p.account_id c1 c2 b k in
              let started : c2.working ≡ c2.committed = work ∙ start ∙ sym same1 ∙ sym same2 in
              let cash : b ≡ cash_in c2.working p.account_id =
                balance ∙ ap (λ db. cash_in db p.account_id) (sym work) in
              rw cash (
                subst
                  (λ db.
                    Settles srv p p.side db
                      (execute_side srv p.side p (cash_in c2.working p.account_id) c2).0
                      (execute_side srv p.side p (cash_in c2.working p.account_id) c2).1.committed)
                  (same2 ∙ same1) (execute_side-Settles p.side p c2 started))

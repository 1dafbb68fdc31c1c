-- ===== src/Trading/Store/Buy.antt =====
-- A buy under the lock, statement by statement.
use quantsim.Prelude.{◌≡◌, refl, ◌∙◌, inl, inr, false, none, some, Bool-cases}
use quantsim.Prelude.Float.{Float}
use quantsim.Trading.Types.{
  buy, insufficient_balance, err_insufficient_balance, filled, ExecuteOrderParams, PlaceOrderResult,
  ok, Order, Trade,
}
use quantsim.Trading.Money.{weighted_avg_cost}
use quantsim.Trading.Postgres.{Sql, Server, Conn, PositionRow, commit, pure, ◌>>=◌, ◌>>◌}
use quantsim.Trading.Store.{execute_buy}
use quantsim.Trading.Store.Effects
use quantsim.Trading.Store.Effects.{stored?-some}
use quantsim.Trading.Store.Statements.{
  insert_order, insert_trade, current_position, upsert_position, update_balance,
}
use quantsim.Trading.Store.Reject.{rejection, step}
use quantsim.Trading.Store.Outcome.{cash_in, Settles, Filled}

module _ {F : Type 0} ⦃f : Float F⦄ (srv : Server F) (p : ExecuteOrderParams F) where
  -- The facts of the six statements of a fill make up the fill.
  filled_buy :
      (c0 c1 c2 c3 c4 c5 c6 : Conn F) (o : Order F) (t : Trade F) (h : PositionRow F) (b : F)
      → c0.working ≡ c0.committed
      → f.lt (cash_in c0.working p.account_id) (f.mul p.price p.quantity) ≡ false
      → insert_order srv p filled (some p.price) none c0 ≡ (ok o, c1)
      → insert_trade srv p o.id none c1 ≡ (ok t, c2)
      → current_position srv p.account_id p.symbol c2 ≡ (ok h, c3)
      → upsert_position srv p.account_id p.symbol
          (f.add h.quantity p.quantity)
          (weighted_avg_cost h.quantity h.avg_cost p.quantity p.price)
          c3
        ≡ (ok tt, c4)
      → update_balance srv p.account_id
          (f.sub (cash_in c0.working p.account_id) (f.mul p.price p.quantity))
          c4
        ≡ (ok b, c5)
      → commit srv c5 ≡ (ok tt, c6)
      → Filled srv p buy c0.committed (record { order = o; trade = t; balance = b }) c6.committed
  filled_buy c0 c1 c2 c3 c4 c5 c6 o t h b start afford e1 e2 e3 e4 e5 e6 =
      let s1 = Effects.insert_order-ok srv p c0 c1 filled (some p.price) none o e1 in
      let s2 = Effects.insert_trade-ok srv p c1 c2 o.id none t e2 in
      let s3 = Effects.current_position-ok srv p.account_id c2 c3 p.symbol h e3 in
      let s4 = Effects.upsert_position-ok srv p.account_id c3 c4 p.symbol _ _ e4 in
      let s5 = Effects.update_balance-ok srv p.account_id c4 c5 _ b e5 in
      let s6 = Effects.commit-ok srv c5 c6 e6 in
      record {
        covered = (cc);
        orders = (cc);
        trades = (cc);
        status = s1.2;
        link = s2.2;
        account = (s1.4, s2.6);
        symbol = (s1.5, s2.7);
        way = (s1.8, s2.8);
        asked = s2.3;
        paid = s2.4;
        quantity = (cc);
        price = stored?-some srv p.price (s2.4) (s1.7);
        balance = (cc);
        accounts = (cc);
        held = (cc);
        cost = (cc);
        positions = (cc);
      }

  -- What follows once the order and the trade are written and the position is read.
  finish : F → Order F → Trade F → PositionRow F → Sql F (PlaceOrderResult F)
  finish balance o t h = do
    upsert_position srv p.account_id p.symbol (f.add h.quantity p.quantity)
        (weighted_avg_cost h.quantity h.avg_cost p.quantity p.price)
    b ← update_balance srv p.account_id (f.sub balance (f.mul p.price p.quantity))
    commit srv
    pure (record { order = o; trade = t; balance = b })

  finish-Settles :
      (c0 c1 c2 c3 : Conn F) (o : Order F) (t : Trade F) (h : PositionRow F)
      → c0.working ≡ c0.committed
      → f.lt (cash_in c0.working p.account_id) (f.mul p.price p.quantity) ≡ false
      → insert_order srv p filled (some p.price) none c0 ≡ (ok o, c1)
      → insert_trade srv p o.id none c1 ≡ (ok t, c2)
      → current_position srv p.account_id p.symbol c2 ≡ (ok h, c3)
      → c3.committed ≡ c0.committed
      → let (r, c') = finish (cash_in c0.working p.account_id) o t h c3 in
        Settles srv p buy c0.committed r c'.committed
  unfolding finish
  finish-Settles c0 c1 c2 c3 o t h start afford e1 e2 e3 same =
      let balance = cash_in c0.working p.account_id in
      let db = c0.committed in
      let q = f.add h.quantity p.quantity in
      let a = weighted_avg_cost h.quantity h.avg_cost p.quantity p.price in
      let paid = f.sub balance (f.mul p.price p.quantity) in
      let result = λ (b : F).
        (let r : PlaceOrderResult F = record { order = o; trade = t; balance = b } in r) in
      step srv p buy db (upsert_position srv p.account_id p.symbol q a)
        (λ _. do b ← update_balance srv p.account_id paid; commit srv; pure (result b)) c3 same
        (λ e c' k. Effects.upsert_position-err srv c3 c' e p.account_id p.symbol q a k)
        λ u c4 e4.
          let same4 =
            (Effects.upsert_position-ok srv p.account_id c3 c4 p.symbol q a e4).0 ∙ same in
          step srv p buy db (update_balance srv p.account_id paid)
            (λ b. do commit srv; pure (result b)) c4 same4
            (λ e c' k. Effects.update_balance-err srv c4 c' e p.account_id paid k)
            λ b c5 e5.
              let same5 = (Effects.update_balance-ok srv p.account_id c4 c5 paid b e5).0 ∙ same4 in
              step srv p buy db (commit srv) (λ _. pure (result b)) c5 same5
                (λ e c' k. Effects.commit-err srv c5 c' e k)
                λ v c6 e6. filled_buy c0 c1 c2 c3 c4 c5 c6 o t h b start afford e1 e2 e3 e4 e5 e6

  filling :
      (c0 : Conn F)
      → c0.working ≡ c0.committed
      → f.lt (cash_in c0.working p.account_id) (f.mul p.price p.quantity) ≡ false
      → let (r, c') =
          (do
            order ← insert_order srv p filled (some p.price) none
            trade ← insert_trade srv p order.id none
            held ← current_position srv p.account_id p.symbol
            finish (cash_in c0.working p.account_id) order trade held)
            c0 in
        Settles srv p buy c0.committed r c'.committed
  filling c0 start afford =
      let balance = cash_in c0.working p.account_id in
      let db = c0.committed in
      let held = current_position srv p.account_id p.symbol in
      step srv p buy db (insert_order srv p filled (some p.price) none)
        (λ o. do t ← insert_trade srv p o.id none; h ← held; finish balance o t h) c0 refl
        (λ e c' k. Effects.insert_order-err srv c0 c' e p filled (some p.price) none k)
        λ o c1 e1.
          let same1 = (Effects.insert_order-ok srv p c0 c1 filled (some p.price) none o e1).0 in
          step srv p buy db (insert_trade srv p o.id none) (λ t. do h ← held; finish balance o t h)
            c1 same1 (λ e c' k. Effects.insert_trade-err srv c1 c' e p o.id none k)
            λ t c2 e2.
              let same2 = (Effects.insert_trade-ok srv p c1 c2 o.id none t e2).0 ∙ same1 in
              step srv p buy db held (finish balance o t) c2 same2
                (λ e c' k. Effects.current_position-err srv c2 c' e p.account_id p.symbol k)
                λ h c3 e3.
                  let same3 =
                    (Effects.current_position-ok srv p.account_id c2 c3 p.symbol h e3).0 ∙ same2 in
                  finish-Settles c0 c1 c2 c3 o t h start afford e1 e2 e3 same3

  -- A buy settles: it fills, or is rejected for want of money, or changes nothing that is durable.
  pub execute_buy-Settles :
      (c0 : Conn F)
      → c0.working ≡ c0.committed
      → let (r, c') = execute_buy srv p (cash_in c0.working p.account_id) c0 in
        Settles srv p buy c0.committed r c'.committed
  unfolding execute_buy finish
  execute_buy-Settles c0 start =
      let balance = cash_in c0.working p.account_id in
      elim (Bool-cases (f.lt balance (f.mul p.price p.quantity))) [
        | inl short ↦ rw short (
            rejection srv p buy insufficient_balance err_insufficient_balance c0 start
              (λ db db' h. h))
        | inr afford ↦ rw afford (filling c0 start afford)
      ]

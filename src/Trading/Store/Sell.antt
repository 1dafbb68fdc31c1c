-- ===== src/Trading/Store/Sell.antt =====
-- A sell under the lock, statement by statement.
use mathlib.Core.Path.{subst}
use quantsim.Prelude.{◌≡◌, refl, sym, ◌∙◌, inl, inr, false, Option, none, some, Bool-cases}
use quantsim.Prelude.Float.{Float}
use quantsim.Trading.Types.{
  sell, insufficient_position, err_insufficient_position, filled, ExecuteOrderParams,
  PlaceOrderResult, ok, Order, Trade,
}
use quantsim.Trading.Money.{realized_pl}
use quantsim.Trading.Postgres.{
  Sql, Server, Conn, PositionRow, raise, choose, commit, pure, ◌>>=◌, ◌>>◌,
}
use quantsim.Trading.Store.{execute_sell, reject_within}
use quantsim.Trading.Store.Effects
use quantsim.Trading.Store.Effects.{stored?-some}
use quantsim.Trading.Store.Statements.{
  insert_order, insert_trade, current_position, upsert_position, update_balance,
}
use quantsim.Trading.Store.Reject.{rejection, step}
use quantsim.Trading.Store.Outcome.{cash_in, Settles, Filled}

module _ {F : Type 0} ⦃f : Float F⦄ (srv : Server F) (p : ExecuteOrderParams F) where
  abbrev booked : PositionRow F → Option F
  booked h = some (realized_pl h.avg_cost p.price p.quantity)

  -- The facts of the statements of a fill make up the fill.
  filled_sell :
      (c0 c1 c2 c3 c4 c5 c6 : Conn F) (h : PositionRow F) (o : Order F) (t : Trade F) (b : F)
      → c0.working ≡ c0.committed
      → current_position srv p.account_id p.symbol c0 ≡ (ok h, c1)
      → f.lt h.quantity p.quantity ≡ false
      → insert_order srv p filled (some p.price) none c1 ≡ (ok o, c2)
      → insert_trade srv p o.id (booked h) c2 ≡ (ok t, c3)
      → upsert_position srv p.account_id p.symbol (f.sub h.quantity p.quantity) h.avg_cost c3
        ≡ (ok tt, c4)
      → update_balance srv p.account_id
          (f.add (cash_in c0.working p.account_id) (f.mul p.price p.quantity))
          c4
        ≡ (ok b, c5)
      → commit srv c5 ≡ (ok tt, c6)
      → Filled srv p sell c0.committed (record { order = o; trade = t; balance = b }) c6.committed
  filled_sell c0 c1 c2 c3 c4 c5 c6 h o t b start e1 cover e2 e3 e4 e5 e6 =
      let s1 = Effects.current_position-ok srv p.account_id c0 c1 p.symbol h e1 in
      let s2 = Effects.insert_order-ok srv p c1 c2 filled (some p.price) none o e2 in
      let s3 = Effects.insert_trade-ok srv p c2 c3 o.id (booked h) t e3 in
      let s4 = Effects.upsert_position-ok srv p.account_id c3 c4 p.symbol _ _ e4 in
      let s5 = Effects.update_balance-ok srv p.account_id c4 c5 _ b e5 in
      let s6 = Effects.commit-ok srv c5 c6 e6 in
      record {
        covered = (cc);
        orders = (cc);
        trades = (cc);
        status = s2.2;
        link = s3.2;
        account = (s2.4, s3.6);
        symbol = (s2.5, s3.7);
        way = (s2.8, s3.8);
        asked = s3.3;
        paid = s3.4;
        quantity = (cc);
        price = stored?-some srv p.price (s3.4) (s2.7);
        balance = (cc);
        accounts = (cc);
        held = (cc);
        cost = (cc);
        positions = (cc);
      }

  -- What follows once the sell is known to be covered.
  sell_out : F → PositionRow F → Sql F (PlaceOrderResult F)
  sell_out balance h = do
    o ← insert_order srv p filled (some p.price) none
    t ← insert_trade srv p o.id (booked h)
    upsert_position srv p.account_id p.symbol (f.sub h.quantity p.quantity) h.avg_cost
    b ← update_balance srv p.account_id (f.add balance (f.mul p.price p.quantity))
    commit srv
    pure (record { order = o; trade = t; balance = b })

  sell_out-Settles :
      (c0 c1 : Conn F) (h : PositionRow F)
      → c0.working ≡ c0.committed
      → current_position srv p.account_id p.symbol c0 ≡ (ok h, c1)
      → f.lt h.quantity p.quantity ≡ false
      → let (r, c') = sell_out (cash_in c0.working p.account_id) h c1 in
        Settles srv p sell c0.committed r c'.committed
  unfolding sell_out
  sell_out-Settles c0 c1 h start e1 cover =
      let db = c0.committed in
      let q = f.sub h.quantity p.quantity in
      let paid = f.add (cash_in c0.working p.account_id) (f.mul p.price p.quantity) in
      let result = λ (o : Order F) (t : Trade F) (b : F).
        (let r : PlaceOrderResult F = record { order = o; trade = t; balance = b } in r) in
      let pay = λ (o : Order F) (t : Trade F).
        (let m : Sql F (PlaceOrderResult F) = (do
          b ← update_balance srv p.account_id paid
          commit srv
          pure (result o t b)) in
          m) in
      let same1 = (Effects.current_position-ok srv p.account_id c0 c1 p.symbol h e1).0 in
      step srv p sell db (insert_order srv p filled (some p.price) none)
        (λ o. do
          t ← insert_trade srv p o.id (booked h)
          upsert_position srv p.account_id p.symbol q h.avg_cost
          pay o t)
        c1 same1 (λ e c' k. Effects.insert_order-err srv c1 c' e p filled (some p.price) none k)
        λ o c2 e2.
          let same2 =
            (Effects.insert_order-ok srv p c1 c2 filled (some p.price) none o e2).0 ∙ same1 in
          step srv p sell db (insert_trade srv p o.id (booked h))
            (λ t. do upsert_position srv p.account_id p.symbol q h.avg_cost; pay o t) c2 same2
            (λ e c' k. Effects.insert_trade-err srv c2 c' e p o.id (booked h) k)
            λ t c3 e3.
              let same3 = (Effects.insert_trade-ok srv p c2 c3 o.id (booked h) t e3).0 ∙ same2 in
              step srv p sell db (upsert_position srv p.account_id p.symbol q h.avg_cost)
                (λ _. pay o t) c3 same3
                (λ e c' k.
                  Effects.upsert_position-err srv c3 c' e p.account_id p.symbol q h.avg_cost k)
                λ u c4 e4.
                  let same4 =
                    (Effects.upsert_position-ok srv p.account_id c3 c4 p.symbol q h.avg_cost e4).0
                    ∙ same3 in
                  step srv p sell db (update_balance srv p.account_id paid)
                    (λ b. do commit srv; pure (result o t b)) c4 same4
                    (λ e c' k. Effects.update_balance-err srv c4 c' e p.account_id paid k)
                    λ b c5 e5.
                      let same5 =
                        (Effects.update_balance-ok srv p.account_id c4 c5 paid b e5).0 ∙ same4 in
                      step srv p sell db (commit srv) (λ _. pure (result o t b)) c5 same5
                        (λ e c' k. Effects.commit-err srv c5 c' e k)
                        λ v c6 e6.
                          filled_sell c0 c1 c2 c3 c4 c5 c6 h o t b start e1 cover e2 e3 e4 e5 e6

  -- A sell settles: it fills, or is rejected for want of shares, or changes nothing that is durable.
  pub execute_sell-Settles :
      (c0 : Conn F)
      → c0.working ≡ c0.committed
      → let (r, c') = execute_sell srv p (cash_in c0.working p.account_id) c0 in
        Settles srv p sell c0.committed r c'.committed
  unfolding execute_sell sell_out
  execute_sell-Settles c0 start =
      let balance = cash_in c0.working p.account_id in
      let held = current_position srv p.account_id p.symbol in
      step srv p sell c0.committed held
        (λ h.
          choose (f.lt h.quantity p.quantity)
            (do reject_within srv p insufficient_position; raise err_insufficient_position)
            (sell_out balance h))
        c0 refl (λ e c' k. Effects.current_position-err srv c0 c' e p.account_id p.symbol k)
        λ h c1 e1.
          let s1 = Effects.current_position-ok srv p.account_id c0 c1 p.symbol h e1 in
          elim (Bool-cases (f.lt h.quantity p.quantity)) [
            | inl short ↦ rw short (
                subst
                  (λ db.
                    Settles srv p sell db
                      ((do
                        reject_within srv p insufficient_position
                        raise {A = PlaceOrderResult F} err_insufficient_position)
                        c1).0
                      ((do
                        reject_within srv p insufficient_position
                        raise {A = PlaceOrderResult F} err_insufficient_position)
                        c1).1.committed)
                  s1.0
                  (rejection srv p sell insufficient_position err_insufficient_position c1
                    (s1.1 ∙ start ∙ sym s1.0) (λ db db' k. k)))
            | inr cover ↦ rw cover (sell_out-Settles c0 c1 h start e1 cover)
          ]

-- ===== src/Trading/Service/Whole.antt =====
-- `PlaceOrder` from the request to the answer.
use mathlib.Core.Path.{subst}
use quantsim.Prelude.{ℕ, ◌≡◌, inl, refl, sym, ap, ◌∙◌}
use quantsim.Prelude.Float.{Float}
use quantsim.Prelude.Text.{Text, Unicode}
use quantsim.Trading.Types.{Result, ok, err, Account, PlaceOrderRequest, PlaceOrderResult}
use quantsim.Trading.Order.{validate_order}
use quantsim.Trading.Order.Checks.{IsAcceptable, normalised, validate_order_exact}
use quantsim.Trading.Client.{Exchange, latest_price}
use quantsim.Trading.Postgres.{Server, Db, Conn}
use quantsim.Trading.Service.{World, owned_by, account_for_user, price_and_fill, place_order}
use quantsim.Trading.Service.Placed.{
  Unmoved, Executed, Placed, Resolved, account_for_user-Resolved, price_and_fill-Placed,
}

module _ {F : Type 0} ⦃f : Float F⦄ (srv : Server F) (u : Unicode) (market : Text → Exchange F)
    (user : ℕ) where
  -- From the account on, whatever the look-up ended in.
  resolved :
      PlaceOrderRequest F
      → World F
      → Result (Account F) × Conn F
      → Result (PlaceOrderResult F) × World F
  resolved checked w o = elim o.0 [
    | err e ↦ (err e, record w { conn = o.1 })
    | ok account ↦
        price_and_fill srv user account checked (latest_price (market checked.symbol))
          (record w { conn = o.1 })
  ]

  resolved-Placed :
      (checked : PlaceOrderRequest F) (w : World F) (o : Result (Account F) × Conn F)
      → Resolved srv user w.conn.committed o.0 o.1.committed
      → let (r, w') = resolved checked w o in
        Placed srv user market checked w.conn.committed w.cache r w'
  unfolding resolved
  resolved-Placed checked w (err e, c) same = (inl same, refl)
  resolved-Placed checked w (ok account, c) (same, own) =
      let (r, w') =
        price_and_fill srv user account checked (latest_price (market checked.symbol))
          (record w { conn = c }) in
      let own' = ap (λ (db : Db F). owned_by user db.accounts) same ∙ own in
      subst (λ db. Placed srv user market checked db w.cache r w') same
        (price_and_fill-Placed srv user market account checked
          (latest_price (market checked.symbol)) (record w { conn = c }) own' refl)

  -- From the check on.
  checked_then : World F → Result (PlaceOrderRequest F) → Result (PlaceOrderResult F) × World F
  unfolding resolved
  checked_then w (err e) = (err e, w)
  checked_then w (ok checked) = resolved checked w (account_for_user srv user w.conn)

  -- What a placed order says of the request: it was acceptable, and it was executed as checked.
  abbrev pub Concluded :
      PlaceOrderRequest F → World F → Result (PlaceOrderResult F) → World F → Type 0
  Concluded req w (ok r) w' =
      IsAcceptable u req × Executed srv user market (normalised u req) w.conn.committed w.cache r w'
  Concluded req w (err e) w' = Unmoved srv w.conn.committed w.cache w'

  Placed-Concluded :
      (req checked : PlaceOrderRequest F) (w w' : World F) (r : Result (PlaceOrderResult F))
      → validate_order u req ≡ ok checked
      → Placed srv user market checked w.conn.committed w.cache r w'
      → Concluded req w r w'
  Placed-Concluded req checked w w' (ok r) e h =
      let (fine, same) = (validate_order_exact u req checked).0 e in
      (fine, subst (λ c. Executed srv user market c w.conn.committed w.cache r w') (sym same) h)
  Placed-Concluded req checked w w' (err x) e h = h

  checked_then-Concluded :
      (req : PlaceOrderRequest F) (w : World F) (v : Result (PlaceOrderRequest F))
      → validate_order u req ≡ v
      → let (r, w') = checked_then w v in Concluded req w r w'
  unfolding checked_then
  checked_then-Concluded req w (err e) h = (inl refl, refl)
  checked_then-Concluded req w (ok checked) h =
      let o = account_for_user srv user w.conn in
      let (r, w') = resolved checked w o in
      Placed-Concluded req checked w w' r h
        (resolved-Placed checked w o (account_for_user-Resolved srv user w.conn))

  -- Placing an order fails closed. An answer without an error means that the request was acceptable
  -- and was filled, as one order and one trade on the account of the caller, in the symbol (trimmed
  -- and in upper case), on the side and of the rounded quantity that were asked for, at a price that
  -- market-data gave for that symbol, and that after it the cache was asked once to drop the caller's
  -- report, which it did unless that call failed. An error, whichever it is, means that no balance,
  -- position, trade or report has changed: at most one rejected order was added to the history.
  pub place_order-Concluded :
      (req : PlaceOrderRequest F) (w : World F)
      → let (r, w') = place_order srv u market user req w in Concluded req w r w'
  unfolding place_order checked_then resolved
  place_order-Concluded req w = checked_then-Concluded req w (validate_order u req) refl

-- ===== src/Trading/Service/Funds.antt =====
-- No request overdraws an account, from the request to the tables.
use quantsim.Prelude.{ℕ, ◌≡◌, ◌⊎◌, inl, inr, true}
use quantsim.Prelude.Float.{Float, nought, IsIeee}
use quantsim.Prelude.Text.{Text, Unicode}
use quantsim.Trading.Types.{Result, ok, err, PlaceOrderRequest, PlaceOrderResult}
use quantsim.Trading.Order.{snap}
use quantsim.Trading.Order.Checks.{IsTick, normalised, snap_pos}
use quantsim.Trading.Client.{Exchange, latest_price-Positive}
use quantsim.Trading.Postgres.{Server, Db}
use quantsim.Trading.Store.Solvent.{IsSolvent, IsNumeric, Filled-IsSolvent}
use quantsim.Trading.Service.{World, place_order}
use quantsim.Trading.Service.Placed.{Audited, params}
use quantsim.Trading.Service.Whole.{Concluded, place_order-Concluded}

module _ {F : Type 0} ⦃f : Float F⦄ (ieee : IsIeee F) (tick : IsTick F) (srv : Server F)
    (col : IsNumeric srv) where
  Audited-IsSolvent :
      (db db' : Db F) → (db' ≡ db) ⊎ Audited srv db db' → IsSolvent db → IsSolvent db'
  Audited-IsSolvent db db' (inl same) s = rw same s
  Audited-IsSolvent db db' (inr row) s =
      rw (row.only) (record { balances = s.balances; quantities = s.quantities })

  module _ (u : Unicode) (market : Text → Exchange F) (user : ℕ) (req : PlaceOrderRequest F)
      (w : World F) where
    Concluded-IsSolvent :
        (r : Result (PlaceOrderResult F)) (w' : World F)
        → Concluded srv u market user req w r w'
        → IsSolvent w.conn.committed
        → IsSolvent w'.conn.committed
    unfolding snap
    Concluded-IsSolvent (err e) w' (h, _) s =
        Audited-IsSolvent w.conn.committed w'.conn.committed h s
    Concluded-IsSolvent (ok r) w' (fine, done) s =
        let sized : f.lt nought (snap req.quantity) ≡ true =
          snap_pos ieee tick req.quantity fine.at_least in
        let priced =
          (latest_price-Positive ieee (market (normalised u req).symbol) done.price
            done.priced).0 in
        Filled-IsSolvent srv ieee col (params srv done.account (normalised u req) done.price) priced
          sized req.side w.conn.committed w'.conn.committed r s done.fill

    -- Whatever a caller asks for and whatever market-data answers, no balance and no position is
    -- ever below zero after an order, if none was before it, float64 keeps the laws of `IsIeee` and
    -- `IsTick`, and the columns round as `IsNumeric` says.
    pub place_order-IsSolvent :
        IsSolvent w.conn.committed
        → IsSolvent (place_order srv u market user req w).1.conn.committed
    place_order-IsSolvent s =
        let (r, w') = place_order srv u market user req w in
        Concluded-IsSolvent r w' (place_order-Concluded srv u market user req w) s

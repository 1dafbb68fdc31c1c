-- ===== src/Trading/Money.antt =====
-- The arithmetic of cost bases (services/trading-engine/internal/service/money.go).
use quantsim.Prelude.{if◌then◌else◌}
use quantsim.Prelude.Float.{Float, nought}

module _ {F : Type 0} ⦃f : Float F⦄ where
  pub weighted_avg_cost : F → F → F → F → F
  weighted_avg_cost old_qty old_avg fill_qty fill_price =
      let total = f.add old_qty fill_qty in
      if f.eq total nought
      then nought
      else f.div (f.add (f.mul old_avg old_qty) (f.mul fill_price fill_qty)) total

  -- `RealizedPL`
  pub realized_pl : F → F → F → F
  realized_pl avg_cost fill_price quantity = f.mul (f.sub fill_price avg_cost) quantity

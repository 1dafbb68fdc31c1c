-- ===== src/Trading/Order.antt =====
-- The checks on a request (`validateOrder` of services/trading-engine/internal/service/trading.go),
-- and the limit on a trade listing.
pub mod Checks
use quantsim.Prelude.{ℕ, ◌≤◌, Bool, true, false, not, ◌||◌, ltb, if◌then◌else◌}
use quantsim.Prelude.Int.{ℤ, pos, leb_ℤ, ltb_ℤ}
use quantsim.Prelude.Float.{Float}
use quantsim.Prelude.Text.{Text, Unicode, is_empty, trim_space, to_upper, byte_len}
use quantsim.Trading.Types.{
  Side, buy, sell, other_side, PlaceOrderRequest, Result, ok, err, err_invalid_order,
}

abbrev pub max_symbol_length : ℕ
max_symbol_length = 16

pub known_side : Side → Bool
known_side buy = true
known_side sell = true
known_side (other_side s) = false

-- `strings.ToUpper(strings.TrimSpace(req.Symbol))`
pub normal_symbol : Unicode → Text → Text
normal_symbol u s = to_upper u (trim_space u s)

module _ {F : Type 0} ⦃f : Float F⦄ where
  abbrev pub max_quantity : F
  max_quantity = f.of_ℕ 1_000_000_000

  abbrev pub quantity_scale : F
  quantity_scale = f.of_ℕ 10_000

  abbrev pub min_quantity : F
  min_quantity = f.div (f.of_ℕ 1) quantity_scale

  -- The bounds on a quantity; NaN fails the first.
  pub bad_quantity : F → Bool
  bad_quantity q = not (f.le min_quantity q) || (f.is_inf q || f.lt max_quantity q)

  -- Round to the tick that the ledger stores.
  unfoldable pub snap : F → F
  snap q = f.div (f.round (f.mul q quantity_scale)) quantity_scale

  module _ (u : Unicode) where
    pub validate_order : PlaceOrderRequest F → Result (PlaceOrderRequest F)
    unfolding normal_symbol known_side bad_quantity snap
    validate_order req =
        let symbol = normal_symbol u req.symbol in
        if is_empty symbol || ltb max_symbol_length (byte_len u symbol)
        then err err_invalid_order
        else if not (known_side req.side)
        then err err_invalid_order
        else if bad_quantity req.quantity
        then err err_invalid_order
        else ok (record { symbol = symbol; side = req.side; quantity = snap req.quantity })

abbrev pub default_trade_limit : ℕ
default_trade_limit = 1000

abbrev pub max_trade_limit : ℕ
max_trade_limit = 10_000

pub normalize_trade_limit : ℤ → ℤ
normalize_trade_limit limit =
    if leb_ℤ limit (pos 0)
    then pos default_trade_limit
    else if ltb_ℤ (pos max_trade_limit) limit
    then pos max_trade_limit
    else limit

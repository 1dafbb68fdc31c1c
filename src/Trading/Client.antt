-- ===== src/Trading/Client.antt =====
-- The client of market-data (services/trading-engine/internal/client/market_data_client.go). The
-- exchange is a parameter: what came back for a symbol.
use quantsim.Prelude.{
  ℕ, ◌≡◌, ◌==◌, ◌||◌, true, false, not, Option, none, some, arith, if◌then◌else◌,
}
use quantsim.Prelude.Float.{Float, nought, IsIeee}
use quantsim.Trading.Types.{Result, ok, err, err_symbol_unavailable, err_upstream_unavailable}

-- The request could not be built or sent, or an answer came with a status and a body, which decodes
-- to a price or does not.
pub data Exchange (F : Type 0) : Type 0 where
  unreachable : Exchange F
  answer : ℕ → Option F → Exchange F

module _ {F : Type 0} ⦃f : Float F⦄ where
  -- The checks on a decoded price.
  pub usable : F → Result F
  usable price =
      if f.le price nought || (not (f.eq price price) || f.is_inf price)
      then err err_upstream_unavailable
      else ok price

  -- `LatestPrice`
  pub latest_price : Exchange F → Result F
  unfolding usable
  latest_price unreachable = err err_upstream_unavailable
  latest_price (answer status body) =
      if status == 404
      then err err_symbol_unavailable
      else if not (status == 200)
      then err err_upstream_unavailable
      else elim body [ none ↦ err err_upstream_unavailable | some price ↦ usable price ]

  -- No price at or below zero, no infinity and no NaN gets past the client.
  pub latest_price-Positive :
      (ieee : IsIeee F) (x : Exchange F) (price : F)
      → latest_price x ≡ ok price
      → (f.lt nought price ≡ true) × (f.is_inf price ≡ false)
  unfolding latest_price usable
  latest_price-Positive ieee unreachable price e = ground arith
  latest_price-Positive ieee (answer status none) price e = ground arith
  latest_price-Positive ieee (answer status (some q)) price e =
      ground (arith, ieee.lt_of_not_le q nought, ieee.eq_self nought ieee.nought_finite.0)

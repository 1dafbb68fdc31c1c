-- ===== src/Trading/Portfolio/Valued.antt =====
-- What a portfolio says when market-data cannot price some of it.
use quantsim.Prelude.{◌≡◌, refl, Option, none, some, List, [], ◌∷◌, true}
use quantsim.Prelude.Float.{Float, nought, IsIeee}
use quantsim.Prelude.Text.{Text}
use quantsim.Trading.Types.{Error, Result, ok, err, Holding, Position}
use quantsim.Trading.Client.{Exchange, latest_price, latest_price-Positive}
use quantsim.Trading.Portfolio.{price_one, price, position_value}

module _ {F : Type 0} ⦃f : Float F⦄ (ieee : IsIeee F) (market : Text → Exchange F) where
  -- Priced at the positive price that market-data gave for its own symbol, or, where it gave none,
  -- and only there, unpriced, without a profit, and valued at its cost.
  abbrev pub Valued : Holding F → Position F → Option F → Type 0
  Valued h p none =
      ((e : Error) × (latest_price (market h.symbol) ≡ err e))
      × (p.unrealized_pl ≡ nought)
      × (position_value p ≡ f.mul h.avg_cost h.quantity)
  Valued h p (some latest) =
      (latest_price (market h.symbol) ≡ ok latest)
      × (f.lt nought latest ≡ true)
      × (p.unrealized_pl ≡ f.mul (f.sub latest h.avg_cost) h.quantity)
      × (position_value p ≡ f.mul latest h.quantity)

  -- A holding as it is reported.
  pub record IsReport (h : Holding F) (p : Position F) : Type 0 where
    pub symbol : p.symbol ≡ h.symbol
    pub quantity : p.quantity ≡ h.quantity
    pub cost : p.avg_cost ≡ h.avg_cost
    pub valued : Valued h p p.latest_price

  -- One report for each holding, in the same order.
  abbrev pub Reports : List (Holding F) → List (Position F) → Type 0
  Reports [] [] = Unit
  Reports [] (p ∷ ps) = ⊥
  Reports (h ∷ hs) [] = ⊥
  Reports (h ∷ hs) (p ∷ ps) = IsReport h p × Reports hs ps

  price_one-IsReport :
      (h : Holding F) (r : Result F)
      → latest_price (market h.symbol) ≡ r
      → IsReport h (price_one h r)
  unfolding price_one position_value
  price_one-IsReport h (err e) eq = record {
    symbol = refl;
    quantity = refl;
    cost = refl;
    valued = ((e, eq), refl, refl);
  }
  price_one-IsReport h (ok latest) eq = record {
    symbol = refl;
    quantity = refl;
    cost = refl;
    valued = (eq, (latest_price-Positive ieee (market h.symbol) latest eq).0, refl, refl);
  }

  -- A price that fails costs one position its live value and nothing else: every holding is still
  -- reported, in its place, with its quantity and its cost; it is valued at the positive price that
  -- market-data gave for its own symbol or, exactly where the look-up of that symbol failed, at what it
  -- cost, with a profit of zero (float64 keeping the laws of `IsIeee`).
  pub price-Reports : (hs : List (Holding F)) → Reports hs (price market hs)
  unfolding price
  price-Reports [] = tt
  price-Reports (h ∷ hs) =
      (price_one-IsReport h (latest_price (market h.symbol)) refl, price-Reports hs)

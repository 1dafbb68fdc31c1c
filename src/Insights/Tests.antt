-- ===== src/Insights/Tests.antt =====
-- The guard at a concrete account: two shares bought at 10, then one sold at 12 after the last close.
use quantsim.Prelude.{ℕ, ◌≡◌, refl, false, List, [], ◌∷◌}
use quantsim.Prelude.Fixed.{fixed}
use quantsim.Prelude.Map.{Map, lookup, insert}
use quantsim.Prelude.Text.{Text, text_eq, text_keys}
use quantsim.Trading.Listing.{order_by}
use quantsim.Trading.Listing.Sorting.{SameRows}
use quantsim.Insights.Types.{
  Bar, Trade, side_sell, side_other, Reconstruction, LivePortfolio, day, text_before,
}
use quantsim.Insights.Replay.{replayed, reconstruct, opening, apply_trade}
use quantsim.Insights.Calendar.{calendar}
use quantsim.Insights.Replay.Cut.{apply_all}
use quantsim.Insights.Reconcile.{abs, cash_tolerance, live_positions, reconcile}
use quantsim.Insights.Reconcile.Agrees.{Agree, reconcile-Agree}

abbrev spy : Text
spy = 83 ∷ []

abbrev bought : Trade ℕ
bought = record {
  id = 1 ∷ [];
  symbol = spy;
  side = side_other [];
  quantity = 20_000;
  price = 100_000;
  executed_at = 86_400_000_000_001;
}

abbrev sold : Trade ℕ
sold = record {
  id = 2 ∷ [];
  symbol = spy;
  side = side_sell;
  quantity = 10_000;
  price = 120_000;
  executed_at = 259_200_000_000_001;
}

abbrev bars : Map Text (List (Bar ℕ))
bars =
    (
      spy,
      record { timestamp = 86_400_000_000_000; close = 110_000 }
          ∷ record { timestamp = 172_800_000_000_000; close = 130_000 }
          ∷ [],
    )
    ∷ []

abbrev history : Reconstruction ℕ
history = record {
  dates = 1 ∷ 2 ∷ [];
  equity = 1_000_020_000 ∷ 1_000_060_000 ∷ [];
  cash = 999_800_000 ∷ 999_800_000 ∷ [];
  holdings = (spy, 20_000) ∷ [];
}

abbrev account : LivePortfolio ℕ
account = record {
  balance = 999_920_000;
  positions = record { symbol = spy; quantity = 10_000 } ∷ [];
}

reconstructed : reconstruct (sold ∷ bought ∷ []) bars (calendar bars) ≡ replayed history
unfolding calendar reconstruct lookup insert text_eq day order_by apply_trade
reconstructed = refl

consents : reconcile history (sold ∷ bought ∷ []) account ≡ false
unfolding reconcile lookup insert text_eq day order_by apply_trade text_before
consents = refl

reconcile-Agree_example :
    (applied : List (Trade ℕ)) × (SameRows applied (sold ∷ bought ∷ [])
      × (let b = apply_all applied opening in
          (fixed.lt cash_tolerance (abs (fixed.sub b.cash account.balance)) ≡ false)
          × ((symbol : Text)
              → Agree
                  (lookup symbol b.holdings)
                  (lookup symbol (live_positions account.positions [])))))
reconcile-Agree_example =
    reconcile-Agree (sold ∷ bought ∷ []) bars bars account history 1 (2 ∷ []) 999_800_000
      (999_800_000 ∷ []) reconstructed refl refl consents

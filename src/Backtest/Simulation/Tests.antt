-- ===== src/Backtest/Simulation/Tests.antt =====
-- Two bars of one symbol, bought at the second.
use quantsim.Prelude.{ℕ, ◌≡◌, refl, [], ◌∷◌, take}
use quantsim.Prelude.Fixed.{fixed}
use quantsim.Backtest.Types.{Bar, hold, buy_next, sell_next}
use quantsim.Backtest.Simulation.{Day, Pool, account_by_bar}
use quantsim.Backtest.Simulation.Lag.{account_by_bar_lag}

abbrev at_price : ℕ → Bar ℕ
at_price n = record {
  timestamp = n;
  open_price = n;
  high = n;
  low = n;
  close_price = n;
  volume = 1;
}

abbrev start : Pool ℕ
start = record {
  cash = 1_000_000;
  slots = record { symbol = 65 ∷ []; quantity = 0; avg_cost = 0 } ∷ [];
  trades = [];
}

abbrev first_day : Day ℕ
first_day = (at_price 50_000, buy_next) ∷ []

abbrev second_day : Day ℕ
second_day = (at_price 40_000, hold) ∷ []

abbrev second_day_selling : Day ℕ
second_day_selling = (at_price 40_000, sell_next) ∷ []

account_by_bar_lag_example :
    take 2 (account_by_bar start (first_day ∷ second_day ∷ []))
    ≡ take 2 (account_by_bar start (first_day ∷ second_day_selling ∷ first_day ∷ []))
account_by_bar_lag_example =
    account_by_bar_lag second_day second_day_selling start (first_day ∷ []) [] (first_day ∷ [])
      (refl, tt)

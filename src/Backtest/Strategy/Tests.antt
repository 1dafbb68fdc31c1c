-- ===== src/Backtest/Strategy/Tests.antt =====
-- The strategies on a few bars.
use quantsim.Prelude.{
  ℕ, ◌≤◌, ◌≡◌, ◌↔◌, refl, ltb, arith, false, true, none, some, List, [], ◌∷◌, map, take, All, suc,
}
use quantsim.Prelude.Int.{pos}
use quantsim.Prelude.Fixed.{fixed}
use quantsim.Backtest.Types.{Bar, Signal, hold, buy_next, sell_next}
use quantsim.Backtest.Strategy.{
  Strategy, ma_crossover, parameters, sane, warmup_bars, new_strategy, max_warmup_bars,
  crossover_signals, generate_signals,
}
use quantsim.Backtest.Strategy.Warmup.{needed, new_strategy_exact}
use quantsim.Backtest.Strategy.Edges.{Alternates, entry, crossover_signals-Alternates}
use quantsim.Backtest.Strategy.Lookahead.{generate_signals_causal}

abbrev cross : Strategy ℕ
cross = ma_crossover (pos 2) (pos 3)

abbrev at_price : ℕ → Bar ℕ
at_price n = record {
  timestamp = n;
  open_price = n;
  high = n;
  low = n;
  close_price = n;
  volume = 1;
}

abbrev bars : List (Bar ℕ)
bars = map at_price (50_000 ∷ 40_000 ∷ 30_000 ∷ 60_000 ∷ 90_000 ∷ 20_000 ∷ [])

new_strategy_exact_example :
    ((new_strategy (parameters cross) ≡ some cross)
      ↔ ((sane cross ≡ true) × (needed cross ≤ max_warmup_bars)))
    × (new_strategy (parameters cross) ≡ some cross
        → (warmup_bars cross ≡ pos (needed cross)) × (2 ≤ needed cross))
new_strategy_exact_example = new_strategy_exact cross

abbrev fast : List ℕ
fast = 1 ∷ 3 ∷ 5 ∷ 2 ∷ 7 ∷ []

abbrev slow : List ℕ
slow = 2 ∷ 2 ∷ 3 ∷ 3 ∷ 3 ∷ []

crossover_signals-Alternates_example :
    ((signal : Signal) × ((entry 3 (crossover_signals fast slow 1) ≡ some signal)
        × (((signal ≡ buy_next) ↔ ((ltb 3 5 ≡ false) × (ltb 3 2 ≡ true)))
            × ((signal ≡ sell_next) ↔ ((ltb 3 5 ≡ true) × (ltb 3 2 ≡ false))))))
    × (All (λ (s : Signal). s ≡ hold) (take (suc 1) (crossover_signals fast slow 1))
        × Alternates none (crossover_signals fast slow 1))
crossover_signals-Alternates_example =
    crossover_signals-Alternates fast slow 1 2 5 3 2 3 (omega arith) refl refl refl refl

cross-sane : sane cross ≡ true
unfolding sane
cross-sane = refl

generate_signals_causal_example :
    generate_signals cross (take 4 bars) ≡ take 4 (generate_signals cross bars)
generate_signals_causal_example = generate_signals_causal cross 4 bars cross-sane

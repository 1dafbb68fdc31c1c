-- ===== src/Backtest/Strategy/Causal.antt =====
-- No strategy looks ahead.
use quantsim.Prelude.{
  ℕ, zero, suc, ◌+◌, ◌-◌, ◌<◌, ◌≡◌, refl, Bool, true, Option, none, some, List, [], ◌∷◌, take,
  arith,
}
use quantsim.Prelude.Int.{ℤ, pos_part}
use quantsim.Prelude.Float.{Float}
use quantsim.Backtest.Types.{Signal}
use quantsim.Backtest.Indicators.{moving_averages, ema, wilder_rsi}
use quantsim.Backtest.Indicators.Causal.{moving_averages_causal, ema_causal, wilder_rsi_causal}
use quantsim.Backtest.Strategy.{
  Strategy, ma_crossover, rsi, macd, sane, crossings, crossover_signals, zone_exits,
  rsi_zone_exit_signals, macd_line, signal_line, signals_of,
}

module _ {F : Type 0} ⦃f : Float F⦄ where
  crossings_causal :
      (n k : ℕ) (state : Option Bool) (fast slow : List F)
      → crossings k state (take n fast) (take n slow) ≡ take n (crossings k state fast slow)
  unfolding crossings
  crossings_causal zero k state fast slow = refl
  crossings_causal (suc n) k state [] slow = refl
  crossings_causal (suc n) k state (x ∷ fast) [] = refl
  crossings_causal (suc n) (suc k) state (x ∷ fast) (y ∷ slow) =
      rw (crossings_causal n k state fast slow)
  crossings_causal (suc n) zero state (x ∷ fast) (y ∷ slow) =
      rw (crossings_causal n zero (some (f.lt y x)) fast slow)

  zone_exits_causal :
      (n k : ℕ) (low high prev : F) (xs : List F)
      → zone_exits k low high prev (take n xs) ≡ take n (zone_exits k low high prev xs)
  unfolding zone_exits
  zone_exits_causal zero k low high prev xs = refl
  zone_exits_causal (suc n) k low high prev [] = refl
  zone_exits_causal (suc n) (suc k) low high prev (x ∷ xs) =
      rw (zone_exits_causal n k low high x xs)
  zone_exits_causal (suc n) zero low high prev (x ∷ xs) =
      rw (zone_exits_causal n zero low high x xs)

  rsi_zone_causal :
      (n from : ℕ) (low high : F) (xs : List F)
      → rsi_zone_exit_signals (take n xs) low high from
        ≡ take n (rsi_zone_exit_signals xs low high from)
  unfolding rsi_zone_exit_signals
  rsi_zone_causal zero from low high xs = refl
  rsi_zone_causal (suc n) from low high [] = refl
  rsi_zone_causal (suc n) from low high (x ∷ xs) = rw (zone_exits_causal n (from - 1) low high x xs)

  macd_line_causal :
      (n k : ℕ) (fast slow : List F)
      → macd_line k (take n fast) (take n slow) ≡ take n (macd_line k fast slow)
  unfolding macd_line
  macd_line_causal zero k fast slow = refl
  macd_line_causal (suc n) k [] slow = refl
  macd_line_causal (suc n) k (x ∷ fast) [] = refl
  macd_line_causal (suc n) (suc k) (x ∷ fast) (y ∷ slow) = rw (macd_line_causal n k fast slow)
  macd_line_causal (suc n) zero (x ∷ fast) (y ∷ slow) = rw (macd_line_causal n zero fast slow)

  signal_line_causal :
      (n k period : ℕ) (xs : List F)
      → 0 < period
      → signal_line k (take n xs) period ≡ take n (signal_line k xs period)
  unfolding signal_line
  signal_line_causal zero k period xs h = refl
  signal_line_causal (suc n) k period [] h = refl
  signal_line_causal (suc n) (suc k) period (x ∷ xs) h = rw (signal_line_causal n k period xs h)
  signal_line_causal (suc n) zero period (x ∷ xs) h = ema_causal (suc n) period (x ∷ xs) h

  signals_on_lines : ℤ → ℤ → List F → List F → List Signal
  signals_on_lines slow signal fast_ema slow_ema =
      let line = macd_line (pos_part slow - 1) fast_ema slow_ema in
      crossings (pos_part slow + pos_part signal - 2) none line
        (signal_line (pos_part slow - 1) line (pos_part signal))

  signals_on_lines_causal :
      (slow signal : ℤ) (n : ℕ) (xs ys : List F)
      → 0 < pos_part signal
      → signals_on_lines slow signal (take n xs) (take n ys)
        ≡ take n (signals_on_lines slow signal xs ys)
  unfolding signals_on_lines
  signals_on_lines_causal slow signal n xs ys h =
      let k = pos_part slow - 1 in
      let line = macd_line k xs ys in
      rw (macd_line_causal n k xs ys) (
        rw (signal_line_causal n k (pos_part signal) line h) (
          crossings_causal n (pos_part slow + pos_part signal - 2) none line
            (signal_line k line (pos_part signal))))

  pub signals_of_causal :
      (s : Strategy F) (n : ℕ) (closes : List F)
      → sane s ≡ true
      → signals_of s (take n closes) ≡ take n (signals_of s closes)
  unfolding signals_of crossover_signals signals_on_lines sane
  signals_of_causal (ma_crossover short long) n closes h =
      rw (moving_averages_causal n (pos_part short) closes) (
        rw (moving_averages_causal n (pos_part long) closes) (
          crossings_causal n (pos_part long - 1) none (moving_averages closes (pos_part short))
            (moving_averages closes (pos_part long))))
  signals_of_causal (rsi period low high) n closes h =
      rw (wilder_rsi_causal n (pos_part period) closes (ground arith))
        (rsi_zone_causal n (pos_part period + 1) low high (wilder_rsi closes (pos_part period)))
  signals_of_causal (macd fast slow signal) n closes h =
      rw (ema_causal n (pos_part fast) closes (ground arith)) (
        rw (ema_causal n (pos_part slow) closes (ground arith)) (
          signals_on_lines_causal slow signal n (ema closes (pos_part fast))
            (ema closes (pos_part slow)) (ground arith)))

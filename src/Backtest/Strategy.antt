-- ===== src/Backtest/Strategy.antt =====
-- The strategies (services/backtesting/internal/service/strategy.go): validation, warm-up, signals.
pub mod Warmup
pub mod Edges
pub mod Causal
pub mod Lookahead
mod Tests
use quantsim.Prelude.{
  ℕ, zero, suc, ◌+◌, ◌-◌, ◌&&◌, ◌||◌, not, Bool, true, false, Option, none, some, List, [], ◌∷◌,
  map, if◌then◌else◌, ltb, leb, ◌==◌, length,
}
use quantsim.Prelude.Int.{ℤ, pos, pos_part, ◌+ℤ◌, ◌-ℤ◌, ltb_ℤ, leb_ℤ, wrap64}
use quantsim.Prelude.Float.{Float, nought}
use quantsim.Backtest.Types.{Bar, Signal, hold, buy_next, sell_next}
use quantsim.Backtest.Indicators.{closes_of, moving_averages, ema, wilder_rsi}

abbrev pub max_warmup_bars : ℕ
max_warmup_bars = 500

abbrev pub min_short_window : ℕ
min_short_window = 2

-- A strategy, with its parameters as Go `int`s.
pub data Strategy (F : Type 0) : Type 0 where
  ma_crossover : ℤ → ℤ → Strategy F
  rsi : ℤ → F → F → Strategy F
  macd : ℤ → ℤ → ℤ → Strategy F

-- What a kind and its JSON parameters decode to: the parameters of a known kind, or neither.
pub data Decoded (F : Type 0) : Type 0 where
  parameters : Strategy F → Decoded F
  undecodable unknown_kind : Decoded F

-- `WarmupBars`, in 64 bits.
pub warmup_bars : {F : Type 0} → Strategy F → ℤ
warmup_bars (ma_crossover short long) = long
warmup_bars (rsi period low high) = wrap64 (period +ℤ pos 1)
warmup_bars (macd fast slow signal) = wrap64 (wrap64 (slow +ℤ signal) -ℤ pos 1)

-- The `switch` of `crossoverSignals`, where `haveState` says that there is a state to leave.
pub edge : Option Bool → Bool → Signal
edge none above = hold
edge (some was_above) above =
    if above && not was_above then buy_next else if not above && was_above then sell_next else hold

-- The checks of `newMACrossover`, of `newMACDStrategy`, and of `newRSIStrategy` below: whether they pass.
abbrev pub sane_ma_crossover : ℤ → ℤ → Bool
sane_ma_crossover short long = not (ltb_ℤ short (pos min_short_window) || leb_ℤ long short)

abbrev pub sane_macd : ℤ → ℤ → ℤ → Bool
sane_macd fast slow signal = not (
    ltb_ℤ fast (pos 2)
    || (leb_ℤ slow fast
        || (ltb_ℤ signal (pos 2)
            || (ltb_ℤ (pos max_warmup_bars) slow || ltb_ℤ (pos max_warmup_bars) signal))))

module _ {F : Type 0} ⦃f : Float F⦄ where
  abbrev pub sane_rsi : ℤ → F → F → Bool
  sane_rsi period low high = not (
      ltb_ℤ period (pos 2)
      || (ltb_ℤ (pos max_warmup_bars) period
          || not (f.lt nought low && (f.lt low high && f.lt high (f.of_ℕ 100)))))

  pub sane : Strategy F → Bool
  sane (ma_crossover short long) = sane_ma_crossover short long
  sane (rsi period low high) = sane_rsi period low high
  sane (macd fast slow signal) = sane_macd fast slow signal

  -- `newStrategyByKind`; every refusal is ErrInvalidRequest.
  pub new_strategy_by_kind : Decoded F → Option (Strategy F)
  unfolding sane
  new_strategy_by_kind undecodable = none
  new_strategy_by_kind unknown_kind = none
  new_strategy_by_kind (parameters s) = if sane s then some s else none

  -- `NewStrategy`
  pub new_strategy : Decoded F → Option (Strategy F)
  unfolding new_strategy_by_kind warmup_bars
  new_strategy d = elim (new_strategy_by_kind d) [
    | none ↦ none
    | some s ↦ if ltb_ℤ (pos max_warmup_bars) (warmup_bars s) then none else some s
  ]

  -- The loop, with the entries that are left before `from`. The two lines have one length.
  pub crossings : ℕ → Option Bool → List F → List F → List Signal
  unfolding edge
  crossings k state [] slow = []
  crossings k state (x ∷ fast) [] = []
  crossings (suc k) state (x ∷ fast) (y ∷ slow) = hold ∷ crossings k state fast slow
  crossings zero state (x ∷ fast) (y ∷ slow) =
      edge state (f.lt y x) ∷ crossings zero (some (f.lt y x)) fast slow

  pub crossover_signals : List F → List F → ℕ → List Signal
  unfolding crossings
  crossover_signals fast slow from = crossings from none fast slow

  -- The `switch` of `rsiZoneExitSignals`.
  pub zone_exit : F → F → F → F → Signal
  zone_exit low high prev cur =
      if f.le prev low && f.lt low cur
      then buy_next
      else if f.le high prev && f.lt cur high
      then sell_next
      else hold

  pub zone_exits : ℕ → F → F → F → List F → List Signal
  unfolding zone_exit
  zone_exits k low high prev [] = []
  zone_exits (suc k) low high prev (cur ∷ rest) = hold ∷ zone_exits k low high cur rest
  zone_exits zero low high prev (cur ∷ rest) =
      zone_exit low high prev cur ∷ zone_exits zero low high cur rest

  -- `rsiZoneExitSignals`, for a start above 0: the entry at 0 has none before it.
  pub rsi_zone_exit_signals : List F → F → F → ℕ → List Signal
  unfolding zone_exits
  rsi_zone_exit_signals [] low high from = []
  rsi_zone_exit_signals (x ∷ xs) low high from = hold ∷ zone_exits (from - 1) low high x xs

  -- `macdLine`: the difference of the averages, from the entry where both exist.
  pub macd_line : ℕ → List F → List F → List F
  macd_line k [] slow = []
  macd_line k (x ∷ fast) [] = []
  macd_line (suc k) (x ∷ fast) (y ∷ slow) = nought ∷ macd_line k fast slow
  macd_line zero (x ∷ fast) (y ∷ slow) = f.sub x y ∷ macd_line zero fast slow

  -- `signalLine`: the average of the MACD line from the same entry on.
  pub signal_line : ℕ → List F → ℕ → List F
  signal_line k [] period = []
  signal_line zero (x ∷ xs) period = ema (x ∷ xs) period
  signal_line (suc k) (x ∷ xs) period = nought ∷ signal_line k xs period

  abbrev pub no_signals : List (Bar F) → List Signal
  no_signals = map (λ _. hold)

  -- `GenerateSignals` of each kind once there are enough bars; a validated parameter is not negative.
  abbrev pub ma_crossover_signals : ℤ → ℤ → List F → List Signal
  ma_crossover_signals short long closes =
      crossover_signals (moving_averages closes (pos_part short))
        (moving_averages closes (pos_part long)) (pos_part long - 1)

  abbrev pub rsi_signals : ℤ → F → F → List F → List Signal
  rsi_signals period low high closes =
      rsi_zone_exit_signals (wilder_rsi closes (pos_part period)) low high (pos_part period + 1)

  abbrev pub macd_signals : ℤ → ℤ → ℤ → List F → List Signal
  macd_signals fast slow signal closes =
      let line =
        macd_line (pos_part slow - 1) (ema closes (pos_part fast)) (ema closes (pos_part slow)) in
      crossover_signals line (signal_line (pos_part slow - 1) line (pos_part signal))
        (pos_part slow + pos_part signal - 2)

  pub signals_of : Strategy F → List F → List Signal
  unfolding crossover_signals rsi_zone_exit_signals macd_line signal_line
  signals_of (ma_crossover short long) closes = ma_crossover_signals short long closes
  signals_of (rsi period low high) closes = rsi_signals period low high closes
  signals_of (macd fast slow signal) closes = macd_signals fast slow signal closes

  pub generate_signals : Strategy F → List (Bar F) → List Signal
  unfolding signals_of
  generate_signals s bars =
      if ltb_ℤ (pos (length bars)) (warmup_bars s)
      then no_signals bars
      else signals_of s (closes_of bars)

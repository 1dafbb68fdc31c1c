-- ===== src/Backtest/Strategy/Lookahead.antt =====
-- The signals on a shorter history, up to the first bar.
use quantsim.Prelude.{
  ℕ, zero, suc, ◌+◌, ◌-◌, ◌≤◌, ◌<◌, ◌≡◌, refl, sym, ap, ◌∙◌, inl, inr, true, none, List, [], ◌∷◌,
  map, take, length, arith, Bool-cases,
}
use quantsim.Prelude.Int.{pos, pos_part, ltb_ℤ}
use quantsim.Prelude.Float.{Float}
use quantsim.Backtest.Types.{Bar, Signal, hold}
use quantsim.Backtest.Indicators.{closes_of, moving_averages, ema, wilder_rsi}
use quantsim.Backtest.Indicators.Causal.{closes_of_causal}
use quantsim.Backtest.Indicators.Lengths.{
  length-map, length-moving_averages, length-ema, length-wilder_rsi,
}
use quantsim.Backtest.Strategy.{
  Strategy, ma_crossover, rsi, macd, sane, warmup_bars, edge, crossings, crossover_signals,
  zone_exits, rsi_zone_exit_signals, macd_line, signal_line, signals_of, generate_signals,
}
use quantsim.Backtest.Strategy.Warmup.{needed, warmup-needed}
use quantsim.Backtest.Strategy.Causal.{signals_of_causal}

-- As many holds as there are entries.
abbrev holds : {A : Type 0} → List A → List Signal
holds = map (λ _. hold)

holds-length :
    {A B : Type 0} (xs : List A) (ys : List B) → length xs ≡ length ys → holds xs ≡ holds ys
holds-length [] [] e = refl
holds-length [] (y ∷ ys) e = absurd (omega arith)
holds-length (x ∷ xs) [] e = absurd (omega arith)
holds-length (x ∷ xs) (y ∷ ys) e = ap (λ r. hold ∷ r) (holds-length xs ys (omega arith))

module _ {F : Type 0} ⦃f : Float F⦄ where
  crossings_short :
      (k : ℕ) (fast slow : List F)
      → length fast ≤ suc k
      → length slow ≡ length fast
      → crossings k none fast slow ≡ holds fast
  unfolding crossings edge
  crossings_short k [] slow h e = refl
  crossings_short k (x ∷ fast) [] h e = absurd (omega arith)
  crossings_short (suc k) (x ∷ fast) (y ∷ slow) h e =
      ap (λ r. hold ∷ r) (crossings_short k fast slow (omega arith) (omega arith))
  crossings_short zero (x ∷ []) (y ∷ slow) h e = refl
  crossings_short zero (x ∷ x' ∷ fast) (y ∷ slow) h e = absurd (omega arith)

  zone_exits_short :
      (k : ℕ) (low high prev : F) (xs : List F)
      → length xs ≤ k
      → zone_exits k low high prev xs ≡ holds xs
  unfolding zone_exits
  zone_exits_short k low high prev [] h = refl
  zone_exits_short zero low high prev (x ∷ xs) h = absurd (omega arith)
  zone_exits_short (suc k) low high prev (x ∷ xs) h =
      ap (λ r. hold ∷ r) (zone_exits_short k low high x xs (omega arith))

  rsi_zone_short :
      (from : ℕ) (low high : F) (xs : List F)
      → length xs ≤ from
      → rsi_zone_exit_signals xs low high from ≡ holds xs
  unfolding rsi_zone_exit_signals
  rsi_zone_short from low high [] h = refl
  rsi_zone_short from low high (x ∷ xs) h =
      ap (λ r. hold ∷ r) (zone_exits_short (from - 1) low high x xs (omega arith))

  length-macd_line :
      (k : ℕ) (fast slow : List F)
      → length slow ≡ length fast
      → length (macd_line k fast slow) ≡ length fast
  unfolding macd_line
  length-macd_line k [] slow e = refl
  length-macd_line k (x ∷ fast) [] e = absurd (omega arith)
  length-macd_line (suc k) (x ∷ fast) (y ∷ slow) e =
      ap suc (length-macd_line k fast slow (omega arith))
  length-macd_line zero (x ∷ fast) (y ∷ slow) e =
      ap suc (length-macd_line zero fast slow (omega arith))

  length-signal_line : (k period : ℕ) (xs : List F) → length (signal_line k xs period) ≡ length xs
  unfolding signal_line
  length-signal_line k period [] = refl
  length-signal_line zero period (x ∷ xs) = length-ema (x ∷ xs) period
  length-signal_line (suc k) period (x ∷ xs) = ap suc (length-signal_line k period xs)

  crossover_short :
      (from : ℕ) (fast slow closes : List F)
      → length fast ≡ length closes
      → length slow ≡ length closes
      → length closes ≤ suc from
      → crossover_signals fast slow from ≡ holds closes
  unfolding crossover_signals
  crossover_short from fast slow closes ef es h =
      crossings_short from fast slow (omega arith) (es ∙ sym ef) ∙ holds-length fast closes ef

  signals_of_short :
      (s : Strategy F) (closes : List F)
      → sane s ≡ true
      → length closes < needed s
      → signals_of s closes ≡ holds closes
  unfolding signals_of sane
  signals_of_short (ma_crossover short long) closes ok h =
      crossover_short (pos_part long - 1) (moving_averages closes (pos_part short))
        (moving_averages closes (pos_part long)) closes
        (length-moving_averages closes (pos_part short))
        (length-moving_averages closes (pos_part long)) (omega arith)
  signals_of_short (rsi period low high) closes ok h =
      let size = length-wilder_rsi closes (pos_part period) in
      rsi_zone_short (pos_part period + 1) low high (wilder_rsi closes (pos_part period))
        (omega (arith, size))
      ∙ holds-length (wilder_rsi closes (pos_part period)) closes size
  signals_of_short (macd fast slow signal) closes ok h =
      let k = pos_part slow - 1 in
      let line = macd_line k (ema closes (pos_part fast)) (ema closes (pos_part slow)) in
      let size : length line ≡ length closes =
        length-macd_line k (ema closes (pos_part fast)) (ema closes (pos_part slow))
          (length-ema closes (pos_part slow) ∙ sym (length-ema closes (pos_part fast)))
        ∙ length-ema closes (pos_part fast) in
      crossover_short (pos_part slow + pos_part signal - 2) line
        (signal_line k line (pos_part signal)) closes size
        (length-signal_line k (pos_part signal) line ∙ size) (ground arith)

  -- The early return changes nothing.
  generate_closed :
      (s : Strategy F) (bars : List (Bar F))
      → sane s ≡ true
      → generate_signals s bars ≡ signals_of s (closes_of bars)
  unfolding generate_signals
  generate_closed s bars ok =
      let warm = (warmup-needed s ok).0 in
      elim (Bool-cases (ltb_ℤ (pos (length bars)) (warmup_bars s))) [
        | inl few ↦
            let size = length-map (λ (b : Bar F). b.close_price) bars in
            let under : length bars < needed s = ground (arith, few, warm) in
            rw few (
              holds-length bars (closes_of bars) (sym size)
              ∙ sym (signals_of_short s (closes_of bars) ok (omega (arith, size))))
        | inr enough ↦ rw enough
      ]

  -- No strategy looks ahead: the signals on the first n bars are the first n of the signals on all of
  -- them, for a strategy that passes the checks, so no bar changes a signal before it.
  pub generate_signals_causal :
      (s : Strategy F) (n : ℕ) (bars : List (Bar F))
      → sane s ≡ true
      → generate_signals s (take n bars) ≡ take n (generate_signals s bars)
  generate_signals_causal s n bars ok =
      generate_closed s (take n bars) ok
      ∙ ap (signals_of s) (closes_of_causal n bars)
      ∙ signals_of_causal s n (closes_of bars) ok
      ∙ ap (take n) (sym (generate_closed s bars ok))

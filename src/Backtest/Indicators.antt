-- ===== src/Backtest/Indicators.antt =====
-- The indicators (services/backtesting/internal/service/indicators.go, and movingAverages and
-- closesOf of strategy.go). Go fills an array of zeros by index; here each loop walks the list and
-- gives the entries in order, the zeros included.
pub mod Causal
pub mod Lengths
use quantsim.Prelude.{
  ℕ, zero, suc, ◌+◌, ◌-◌, ◌&&◌, ◌||◌, Bool, List, [], ◌∷◌, map, if◌then◌else◌, ltb, leb, ◌==◌,
  length,
}
use quantsim.Prelude.Float.{Float, nought}
use quantsim.Backtest.Types.{Bar}

module _ {F : Type 0} ⦃f : Float F⦄ where
  -- `make([]float64, len(values))`
  abbrev pub zeros : List F → List F
  zeros = map (λ _. nought)

  abbrev pub closes_of : List (Bar F) → List F
  closes_of = map (λ (b : Bar F). b.close_price)

  -- The window slides over `values`; `lag` is the list from the oldest value that is still in it, and
  -- `fill` how many values it still takes to fill it.
  pub average_from : ℕ → ℕ → F → List F → List F → List F
  average_from window fill sum lag [] = []
  average_from window (suc zero) sum lag (v ∷ vs) =
      f.div (f.add sum v) (f.of_ℕ window) ∷ average_from window zero (f.add sum v) lag vs
  average_from window (suc (suc n)) sum lag (v ∷ vs) =
      nought ∷ average_from window (suc n) (f.add sum v) lag vs
  average_from window zero sum [] (v ∷ vs) = []
  average_from window zero sum (o ∷ lag) (v ∷ vs) =
      f.div (f.sub (f.add sum v) o) (f.of_ℕ window)
      ∷ average_from window zero (f.sub (f.add sum v) o) lag vs

  -- `movingAverages` on the closes.
  pub moving_averages : List F → ℕ → List F
  unfolding average_from
  moving_averages values window = average_from window window nought values values

  -- `values[i]*alpha + prev*(1-alpha)`
  abbrev pub ema_next : ℕ → F → F → F
  ema_next period prev v =
      let alpha = f.div (f.of_ℕ 2) (f.of_ℕ (period + 1)) in
      f.add (f.mul v alpha) (f.mul prev (f.sub (f.of_ℕ 1) alpha))

  -- The recursive part of `ema`.
  pub ema_rest : ℕ → F → List F → List F
  ema_rest period prev [] = []
  ema_rest period prev (v ∷ vs) =
      ema_next period prev v ∷ ema_rest period (ema_next period prev v) vs

  -- The first `period` values: zeros, and the seed at the last of them.
  pub ema_seed : ℕ → ℕ → F → List F → List F
  unfolding ema_rest
  ema_seed left period sum [] = []
  ema_seed zero period sum (v ∷ vs) =
      let seed = f.div (f.add sum v) (f.of_ℕ period) in seed ∷ ema_rest period seed vs
  ema_seed (suc left) period sum (v ∷ vs) = nought ∷ ema_seed left period (f.add sum v) vs

  pub ema : List F → ℕ → List F
  unfolding ema_seed
  ema values period =
      if period == 0 || ltb (length values) period
      then zeros values
      else ema_seed (period - 1) period nought values

  pub rsi_from_averages : F → F → F
  rsi_from_averages gain loss =
      if f.eq gain nought && f.eq loss nought
      then f.of_ℕ 50
      else if f.eq loss nought
      then f.of_ℕ 100
      else if f.eq gain nought
      then nought
      else f.sub (f.of_ℕ 100) (f.div (f.of_ℕ 100) (f.add (f.of_ℕ 1) (f.div gain loss)))

  -- The two branches on the sign of a change.
  pub gain_of : F → F
  gain_of delta = if f.lt nought delta then delta else nought

  pub loss_of : F → F
  loss_of delta = if f.lt nought delta then nought else f.neg delta

  -- `(avg*float64(period-1) + x) / float64(period)`
  abbrev pub smoothed : ℕ → F → F → F
  smoothed period avg x = f.div (f.add (f.mul avg (f.of_ℕ (period - 1))) x) (f.of_ℕ period)

  -- The second loop of `wilderRSI`.
  pub rsi_rest : ℕ → F → F → F → List F → List F
  unfolding gain_of loss_of rsi_from_averages
  rsi_rest period gain loss prev [] = []
  rsi_rest period gain loss prev (c ∷ cs) =
      let gain' = smoothed period gain (gain_of (f.sub c prev)) in
      let loss' = smoothed period loss (loss_of (f.sub c prev)) in
      rsi_from_averages gain' loss' ∷ rsi_rest period gain' loss' c cs

  -- `gainSum += delta` or `lossSum += -delta`, and the other sum as it is.
  pub add_gain : F → F → F
  add_gain sum delta = if f.lt nought delta then f.add sum delta else sum

  pub add_loss : F → F → F
  add_loss sum delta = if f.lt nought delta then sum else f.add sum (f.neg delta)

  -- The first loop, with the changes that are left before the seed.
  pub rsi_seed : ℕ → ℕ → F → F → F → List F → List F
  unfolding add_gain add_loss rsi_rest rsi_from_averages
  rsi_seed left period gain loss prev [] = []
  rsi_seed zero period gain loss prev (c ∷ cs) =
      let delta = f.sub c prev in
      let gain' = f.div (add_gain gain delta) (f.of_ℕ period) in
      let loss' = f.div (add_loss loss delta) (f.of_ℕ period) in
      rsi_from_averages gain' loss' ∷ rsi_rest period gain' loss' c cs
  rsi_seed (suc left) period gain loss prev (c ∷ cs) =
      let delta = f.sub c prev in
      nought ∷ rsi_seed left period (add_gain gain delta) (add_loss loss delta) c cs

  -- The entry at 0 has no change before it.
  pub rsi_start : ℕ → List F → List F
  unfolding rsi_seed
  rsi_start period [] = []
  rsi_start period (c ∷ cs) = nought ∷ rsi_seed (period - 1) period nought nought c cs

  pub wilder_rsi : List F → ℕ → List F
  unfolding rsi_start
  wilder_rsi closes period =
      if period == 0 || leb (length closes) period then zeros closes else rsi_start period closes

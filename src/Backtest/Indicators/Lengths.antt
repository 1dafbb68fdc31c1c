-- ===== src/Backtest/Indicators/Lengths.antt =====
-- Every indicator gives one entry for each value.
use quantsim.Prelude.{
  ℕ, zero, suc, ◌-◌, ◌≤◌, ◌≡◌, refl, ap, inl, inr, List, [], ◌∷◌, map, length, arith, Bool-cases,
  ◌==◌, ◌||◌, ltb, leb,
}
use quantsim.Prelude.Float.{Float, nought}
use quantsim.Backtest.Indicators.{
  average_from, moving_averages, ema_rest, ema_seed, ema, rsi_rest, rsi_seed, rsi_start, wilder_rsi,
  ema_next, smoothed, gain_of, loss_of, add_gain, add_loss,
}

pub length-map : {A B : Type 0} (g : A → B) (xs : List A) → length (map g xs) ≡ length xs
length-map g [] = refl
length-map g (x ∷ xs) = ap suc (length-map g xs)

module _ {F : Type 0} ⦃f : Float F⦄ where
  length-average_from :
      (window fill : ℕ) (sum : F) (lag vs : List F)
      → length vs ≤ length lag
      → length (average_from window fill sum lag vs) ≡ length vs
  unfolding average_from
  length-average_from window fill sum lag [] h = refl
  length-average_from window (suc zero) sum lag (v ∷ vs) h =
      ap suc (length-average_from window zero (f.add sum v) lag vs (omega arith))
  length-average_from window (suc (suc k)) sum lag (v ∷ vs) h =
      ap suc (length-average_from window (suc k) (f.add sum v) lag vs (omega arith))
  length-average_from window zero sum [] (v ∷ vs) h = absurd (omega arith)
  length-average_from window zero sum (o ∷ lag) (v ∷ vs) h =
      ap suc (length-average_from window zero (f.sub (f.add sum v) o) lag vs (omega arith))

  pub length-moving_averages :
      (vs : List F) (window : ℕ) → length (moving_averages vs window) ≡ length vs
  unfolding moving_averages
  length-moving_averages vs window = length-average_from window window nought vs vs (omega arith)

  length-ema_rest :
      (period : ℕ) (prev : F) (vs : List F) → length (ema_rest period prev vs) ≡ length vs
  unfolding ema_rest
  length-ema_rest period prev [] = refl
  length-ema_rest period prev (v ∷ vs) = ap suc (length-ema_rest period (ema_next period prev v) vs)

  length-ema_seed :
      (left period : ℕ) (sum : F) (vs : List F) → length (ema_seed left period sum vs) ≡ length vs
  unfolding ema_seed
  length-ema_seed left period sum [] = refl
  length-ema_seed zero period sum (v ∷ vs) =
      ap suc (length-ema_rest period (f.div (f.add sum v) (f.of_ℕ period)) vs)
  length-ema_seed (suc left) period sum (v ∷ vs) =
      ap suc (length-ema_seed left period (f.add sum v) vs)

  pub length-ema : (vs : List F) (period : ℕ) → length (ema vs period) ≡ length vs
  unfolding ema
  length-ema vs period = elim (Bool-cases (period == 0 || ltb (length vs) period)) [
    | inl few ↦ rw few (length-map _ vs)
    | inr enough ↦ rw enough (length-ema_seed (period - 1) period nought vs)
  ]

  length-rsi_rest :
      (period : ℕ) (gain loss prev : F) (cs : List F)
      → length (rsi_rest period gain loss prev cs) ≡ length cs
  unfolding rsi_rest
  length-rsi_rest period gain loss prev [] = refl
  length-rsi_rest period gain loss prev (c ∷ cs) = ap suc (
      length-rsi_rest period (smoothed period gain (gain_of (f.sub c prev)))
        (smoothed period loss (loss_of (f.sub c prev))) c cs)

  length-rsi_seed :
      (left period : ℕ) (gain loss prev : F) (cs : List F)
      → length (rsi_seed left period gain loss prev cs) ≡ length cs
  unfolding rsi_seed
  length-rsi_seed left period gain loss prev [] = refl
  length-rsi_seed zero period gain loss prev (c ∷ cs) =
      let gain' = f.div (add_gain gain (f.sub c prev)) (f.of_ℕ period) in
      let loss' = f.div (add_loss loss (f.sub c prev)) (f.of_ℕ period) in
      ap suc (length-rsi_rest period gain' loss' c cs)
  length-rsi_seed (suc left) period gain loss prev (c ∷ cs) = ap suc (
      length-rsi_seed left period (add_gain gain (f.sub c prev)) (add_loss loss (f.sub c prev)) c
        cs)

  length-rsi_start : (period : ℕ) (cs : List F) → length (rsi_start period cs) ≡ length cs
  unfolding rsi_start
  length-rsi_start period [] = refl
  length-rsi_start period (c ∷ cs) = ap suc (length-rsi_seed (period - 1) period nought nought c cs)

  pub length-wilder_rsi : (cs : List F) (period : ℕ) → length (wilder_rsi cs period) ≡ length cs
  unfolding wilder_rsi
  length-wilder_rsi cs period = elim (Bool-cases (period == 0 || leb (length cs) period)) [
    | inl few ↦ rw few (length-map _ cs)
    | inr enough ↦ rw enough (length-rsi_start period cs)
  ]

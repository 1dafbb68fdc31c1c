-- ===== src/Backtest/Indicators/Causal.antt =====
-- No indicator looks ahead: on the first n values it gives its first n entries.
use quantsim.Prelude.{
  ℕ, zero, suc, ◌-◌, ◌≤◌, ◌<◌, ◌≡◌, refl, sym, ap, ◌∙◌, inl, inr, List, [], ◌∷◌, map, take, length,
  arith, Bool-cases, ltb, leb, ◌==◌, ◌||◌,
}
use quantsim.Prelude.Float.{Float, nought}
use quantsim.Backtest.Types.{Bar}
use quantsim.Backtest.Indicators.{
  zeros, closes_of, average_from, moving_averages, ema_rest, ema_seed, ema, rsi_rest, rsi_seed,
  rsi_start, wilder_rsi, ema_next, smoothed, gain_of, loss_of, add_gain, add_loss,
}

pub take-map :
    {A B : Type 0} (g : A → B) (n : ℕ) (xs : List A) → map g (take n xs) ≡ take n (map g xs)
take-map g zero xs = refl
take-map g (suc n) [] = refl
take-map g (suc n) (x ∷ xs) = ap (λ r. g x ∷ r) (take-map g n xs)

module _ {F : Type 0} ⦃f : Float F⦄ where
  pub closes_of_causal :
      (n : ℕ) (bars : List (Bar F)) → closes_of (take n bars) ≡ take n (closes_of bars)
  closes_of_causal n bars = take-map _ n bars

  average_from_causal :
      (n m window fill : ℕ) (sum : F) (lag vs : List F)
      → n ≤ m
      → average_from window fill sum (take m lag) (take n vs)
        ≡ take n (average_from window fill sum lag vs)
  unfolding average_from
  average_from_causal zero m window fill sum lag vs le = refl
  average_from_causal (suc n) m window fill sum lag [] le = refl
  average_from_causal (suc n) m window (suc zero) sum lag (v ∷ vs) le =
      rw (average_from_causal n m window zero (f.add sum v) lag vs (omega arith))
  average_from_causal (suc n) m window (suc (suc k)) sum lag (v ∷ vs) le =
      rw (average_from_causal n m window (suc k) (f.add sum v) lag vs (omega arith))
  average_from_causal (suc n) zero window zero sum lag (v ∷ vs) le = absurd (omega arith)
  average_from_causal (suc n) (suc m) window zero sum [] (v ∷ vs) le = refl
  average_from_causal (suc n) (suc m) window zero sum (o ∷ lag) (v ∷ vs) le =
      rw (average_from_causal n m window zero (f.sub (f.add sum v) o) lag vs (omega arith))

  pub moving_averages_causal :
      (n window : ℕ) (vs : List F)
      → moving_averages (take n vs) window ≡ take n (moving_averages vs window)
  unfolding moving_averages
  moving_averages_causal n window vs =
      average_from_causal n n window window nought vs vs (omega arith)

  ema_rest_causal :
      (n period : ℕ) (prev : F) (vs : List F)
      → ema_rest period prev (take n vs) ≡ take n (ema_rest period prev vs)
  unfolding ema_rest
  ema_rest_causal zero period prev vs = refl
  ema_rest_causal (suc n) period prev [] = refl
  ema_rest_causal (suc n) period prev (v ∷ vs) =
      rw (ema_rest_causal n period (ema_next period prev v) vs)

  ema_seed_causal :
      (n left period : ℕ) (sum : F) (vs : List F)
      → ema_seed left period sum (take n vs) ≡ take n (ema_seed left period sum vs)
  unfolding ema_seed
  ema_seed_causal zero left period sum vs = refl
  ema_seed_causal (suc n) left period sum [] = refl
  ema_seed_causal (suc n) zero period sum (v ∷ vs) =
      rw (ema_rest_causal n period (f.div (f.add sum v) (f.of_ℕ period)) vs)
  ema_seed_causal (suc n) (suc left) period sum (v ∷ vs) =
      ap (λ r. nought ∷ r) (ema_seed_causal n left period (f.add sum v) vs)

  -- Too few values for a seed: zeros.
  ema_seed_short :
      (left period : ℕ) (sum : F) (vs : List F)
      → length vs ≤ left
      → ema_seed left period sum vs ≡ zeros vs
  unfolding ema_seed
  ema_seed_short left period sum [] h = refl
  ema_seed_short zero period sum (v ∷ vs) h = absurd (omega arith)
  ema_seed_short (suc left) period sum (v ∷ vs) h =
      ap (λ r. nought ∷ r) (ema_seed_short left period (f.add sum v) vs (omega arith))

  ema_closed :
      (period : ℕ) (vs : List F)
      → 0 < period
      → ema vs period ≡ ema_seed (period - 1) period nought vs
  unfolding ema
  ema_closed period vs h = elim (Bool-cases (period == 0 || ltb (length vs) period)) [
    | inl few ↦ rw few (sym (ema_seed_short (period - 1) period nought vs (ground arith)))
    | inr enough ↦ rw enough
  ]

  pub ema_causal :
      (n period : ℕ) (vs : List F) → 0 < period → ema (take n vs) period ≡ take n (ema vs period)
  ema_causal n period vs h =
      ema_closed period (take n vs) h
      ∙ ema_seed_causal n (period - 1) period nought vs
      ∙ ap (take n) (sym (ema_closed period vs h))

  rsi_rest_causal :
      (n period : ℕ) (gain loss prev : F) (cs : List F)
      → rsi_rest period gain loss prev (take n cs) ≡ take n (rsi_rest period gain loss prev cs)
  unfolding rsi_rest
  rsi_rest_causal zero period gain loss prev cs = refl
  rsi_rest_causal (suc n) period gain loss prev [] = refl
  rsi_rest_causal (suc n) period gain loss prev (c ∷ cs) =
      let gain' = smoothed period gain (gain_of (f.sub c prev)) in
      let loss' = smoothed period loss (loss_of (f.sub c prev)) in
      rw (rsi_rest_causal n period gain' loss' c cs)

  rsi_seed_causal :
      (n left period : ℕ) (gain loss prev : F) (cs : List F)
      → rsi_seed left period gain loss prev (take n cs)
        ≡ take n (rsi_seed left period gain loss prev cs)
  unfolding rsi_seed
  rsi_seed_causal zero left period gain loss prev cs = refl
  rsi_seed_causal (suc n) left period gain loss prev [] = refl
  rsi_seed_causal (suc n) zero period gain loss prev (c ∷ cs) = rw (rsi_rest_causal n)
  rsi_seed_causal (suc n) (suc left) period gain loss prev (c ∷ cs) = rw (rsi_seed_causal n)

  rsi_seed_short :
      (left period : ℕ) (gain loss prev : F) (cs : List F)
      → length cs ≤ left
      → rsi_seed left period gain loss prev cs ≡ zeros cs
  unfolding rsi_seed
  rsi_seed_short left period gain loss prev [] h = refl
  rsi_seed_short zero period gain loss prev (c ∷ cs) h = absurd (omega arith)
  rsi_seed_short (suc left) period gain loss prev (c ∷ cs) h = rw (
      rsi_seed_short left period (add_gain gain (f.sub c prev)) (add_loss loss (f.sub c prev)) c cs
        (omega arith))

  rsi_start_short :
      (period : ℕ) (cs : List F) → 0 < period → length cs ≤ period → rsi_start period cs ≡ zeros cs
  unfolding rsi_start
  rsi_start_short period [] pos h = refl
  rsi_start_short period (c ∷ cs) pos h =
      rw (rsi_seed_short (period - 1) period nought nought c cs (omega arith))

  wilder_rsi_closed :
      (period : ℕ) (cs : List F) → 0 < period → wilder_rsi cs period ≡ rsi_start period cs
  unfolding wilder_rsi
  wilder_rsi_closed period cs h = elim (Bool-cases (period == 0 || leb (length cs) period)) [
    | inl few ↦ rw few (sym (rsi_start_short period cs h (ground arith)))
    | inr enough ↦ rw enough
  ]

  rsi_start_causal :
      (n period : ℕ) (cs : List F) → rsi_start period (take n cs) ≡ take n (rsi_start period cs)
  unfolding rsi_start
  rsi_start_causal zero period cs = refl
  rsi_start_causal (suc n) period [] = refl
  rsi_start_causal (suc n) period (c ∷ cs) =
      rw (rsi_seed_causal n (period - 1) period nought nought c cs)

  pub wilder_rsi_causal :
      (n period : ℕ) (cs : List F)
      → 0 < period
      → wilder_rsi (take n cs) period ≡ take n (wilder_rsi cs period)
  wilder_rsi_causal n period cs h =
      wilder_rsi_closed period (take n cs) h
      ∙ rsi_start_causal n period cs
      ∙ ap (take n) (sym (wilder_rsi_closed period cs h))

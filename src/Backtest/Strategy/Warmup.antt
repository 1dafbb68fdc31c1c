-- ===== src/Backtest/Strategy/Warmup.antt =====
-- The bounds on what a strategy may ask for.
use quantsim.Prelude.{ℕ, ◌+◌, ◌-◌, ◌≤◌, ◌≡◌, ◌↔◌, inl, inr, true, some, arith, Bool-cases}
use quantsim.Prelude.Int.{pos, pos_part, ◌+ℤ◌, ◌-ℤ◌, wrap64}
use quantsim.Prelude.Float.{Float}
use quantsim.Backtest.Strategy.{
  Strategy, ma_crossover, rsi, macd, Decoded, parameters, undecodable, unknown_kind, warmup_bars,
  sane, new_strategy, new_strategy_by_kind, max_warmup_bars,
}

-- The number of bars that a strategy needs, without wrapping.
abbrev pub needed : {F : Type 0} → Strategy F → ℕ
needed (ma_crossover short long) = pos_part long
needed (rsi period low high) = pos_part period + 1
needed (macd fast slow signal) = pos_part slow + pos_part signal - 1

module _ {F : Type 0} ⦃f : Float F⦄ where
  pub warmup-needed :
      (s : Strategy F) → sane s ≡ true → (warmup_bars s ≡ pos (needed s)) × (2 ≤ needed s)
  unfolding warmup_bars sane ◌+ℤ◌ ◌-ℤ◌ wrap64
  warmup-needed (ma_crossover short long) h = ground arith
  warmup-needed (rsi period low high) h = ground arith
  warmup-needed (macd fast slow signal) h = ground arith

  accepted-sane :
      (d : Decoded F) (s : Strategy F)
      → new_strategy d ≡ some s
      → (d ≡ parameters s) × (sane s ≡ true)
  unfolding new_strategy new_strategy_by_kind
  accepted-sane (parameters t) s e = ground arith
  accepted-sane undecodable s e = cc e
  accepted-sane unknown_kind s e = cc e

  -- A strategy is accepted exactly when its parameters pass the checks of its kind and it needs at
  -- most 500 bars; then `WarmupBars` is that number, at least 2, and its sum has not wrapped around.
  pub new_strategy_exact :
      (s : Strategy F)
      → ((new_strategy (parameters s) ≡ some s) ↔ ((sane s ≡ true) × (needed s ≤ max_warmup_bars)))
        × (new_strategy (parameters s) ≡ some s → (warmup_bars s ≡ pos (needed s)) × (2 ≤ needed s))
  unfolding new_strategy new_strategy_by_kind
  new_strategy_exact s = elim (Bool-cases (sane s)) [
    | inl fine ↦ let (exact, least) = warmup-needed s fine in ground (arith, fine, exact, least)
    | inr bad ↦ ground arith
  ]

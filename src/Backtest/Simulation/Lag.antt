-- ===== src/Backtest/Simulation/Lag.antt =====
-- The lag of one bar: a bar's own signal cannot change what is traded at it.
use quantsim.Prelude.{suc, ◌≡◌, refl, List, [], ◌∷◌, ◌++◌, take, length}
use quantsim.Prelude.Float.{Float}
use quantsim.Backtest.Types.{Bar, TradeRecord}
use quantsim.Backtest.Simulation.{
  Day, Slot, Pool, sells, buys, value_by, trade_day, marked, run, account_by_bar,
}

-- The same bars, whatever the signals.
abbrev pub SameBars : {F : Type 0} → Day F → Day F → Type 0
SameBars [] [] = Unit
SameBars [] (x ∷ t) = ⊥
SameBars (x ∷ t) [] = ⊥
SameBars ((b, _) ∷ t) ((c, _) ∷ u) = (b ≡ c) × SameBars t u

module _ {F : Type 0} ⦃f : Float F⦄ where
  sells_same :
      (ss : List (Slot F)) (before t u : Day F) (cash : F) (trades : List (TradeRecord F))
      → SameBars t u
      → sells ss before t cash trades ≡ sells ss before u cash trades
  unfolding sells
  sells_same [] before t u cash trades h = refl
  sells_same (s ∷ ss) [] t u cash trades h = refl
  sells_same (s ∷ ss) (b ∷ before) [] [] cash trades h = refl
  sells_same (s ∷ ss) (b ∷ before) [] (x ∷ u) cash trades h = absurd h
  sells_same (s ∷ ss) (b ∷ before) (x ∷ t) [] cash trades h = absurd h
  sells_same (s ∷ ss) ((_, signal) ∷ before) ((bar, x) ∷ t) ((bar', y) ∷ u) cash trades
        (same, rest) =
      let ih : (c : F) (r : List (TradeRecord F)) → sells ss before t c r ≡ sells ss before u c r =
        λ c r. sells_same ss before t u c r rest in
      simp (same, ih)

  value_same :
      (at : Bar F → F) (ss : List (Slot F)) (t u : Day F) (sum : F)
      → SameBars t u
      → value_by at ss t sum ≡ value_by at ss u sum
  unfolding value_by
  value_same at [] t u sum h = refl
  value_same at (s ∷ ss) [] [] sum h = refl
  value_same at (s ∷ ss) [] (x ∷ u) sum h = absurd h
  value_same at (s ∷ ss) (x ∷ t) [] sum h = absurd h
  value_same at (s ∷ ss) ((bar, x) ∷ t) ((bar', y) ∷ u) sum (same, rest) =
      rw same (value_same at ss t u (f.add sum (f.mul s.quantity (at bar'))) rest)

  buys_same :
      (target : F) (ss : List (Slot F)) (before t u : Day F) (cash : F)
      (trades : List (TradeRecord F))
      → SameBars t u
      → buys target ss before t cash trades ≡ buys target ss before u cash trades
  unfolding buys
  buys_same target [] before t u cash trades h = refl
  buys_same target (s ∷ ss) [] t u cash trades h = refl
  buys_same target (s ∷ ss) (b ∷ before) [] [] cash trades h = refl
  buys_same target (s ∷ ss) (b ∷ before) [] (x ∷ u) cash trades h = absurd h
  buys_same target (s ∷ ss) (b ∷ before) (x ∷ t) [] cash trades h = absurd h
  buys_same target (s ∷ ss) ((_, signal) ∷ before) ((bar, x) ∷ t) ((bar', y) ∷ u) cash trades
        (same, rest) =
      let ih : (c : F) (r : List (TradeRecord F))
          → buys target ss before t c r ≡ buys target ss before u c r =
        λ c r. buys_same target ss before t u c r rest in
      simp (same, ih)

  trade_day_same :
      (before t u : Day F) (p : Pool F) → SameBars t u → trade_day before t p ≡ trade_day before u p
  unfolding trade_day
  trade_day_same before t u p h =
      let sold_out = sells p.slots before u p.cash p.trades in
      let at_open : (q : Pool F)
          → value_by (λ (b : Bar F). b.open_price) q.slots t q.cash
            ≡ value_by (λ (b : Bar F). b.open_price) q.slots u q.cash =
        λ q. value_same (λ (b : Bar F). b.open_price) q.slots t u q.cash h in
      rw (sells_same p.slots before t u p.cash p.trades h) (
        rw (at_open sold_out) (
          buys_same
            (f.div (value_by (λ (b : Bar F). b.open_price) sold_out.slots u sold_out.cash)
              (f.of_ℕ (length p.slots)))
            sold_out.slots before t u sold_out.cash sold_out.trades h))

  marked_same : (p : Pool F) (t u : Day F) → SameBars t u → marked p t ≡ marked p u
  unfolding marked
  marked_same p t u h = value_same (λ (b : Bar F). b.close_price) p.slots t u p.cash h

  run_lag :
      (before t u : Day F) (p : Pool F) (days later later' : List (Day F))
      → SameBars t u
      → take (suc (length days)) (run before p (days ++ (t ∷ later)))
        ≡ take (suc (length days)) (run before p (days ++ (u ∷ later')))
  unfolding run
  run_lag before t u p [] later later' h =
      rw (trade_day_same before t u p h) (rw (marked_same (trade_day before u p) t u h) refl)
  run_lag before t u p (d ∷ days) later later' h =
      rw (run_lag d t u (trade_day before d p) days later later' h)

  -- The engine fills with a lag of one bar: what the account holds, what it has traded and what it is
  -- worth after a bar depends on the bars so far and on the signals of the bars before it. Neither the
  -- signal of the bar itself, which is made from its close, nor anything later can change it.
  pub account_by_bar_lag :
      (t u : Day F) (p : Pool F) (days later later' : List (Day F))
      → SameBars t u
      → take (suc (length days)) (account_by_bar p (days ++ (t ∷ later)))
        ≡ take (suc (length days)) (account_by_bar p (days ++ (u ∷ later')))
  unfolding account_by_bar
  account_by_bar_lag t u p [] later later' h = rw (marked_same p t u h) refl
  account_by_bar_lag t u p (d ∷ days) later later' h = rw (run_lag d t u p days later later' h)

-- ===== src/Backtest/Simulation.antt =====
-- The simulation (services/backtesting/internal/service/simulate_portfolio.go). Go indexes parallel
-- arrays by symbol and bar, of one length each; here a day is the list of the symbols' bars and signals of one bar index,
-- and a slot holds what one symbol keeps between bars.
pub mod Lag
mod Tests
use quantsim.Prelude.{
  ℕ, zero, suc, ◌&&◌, ◌||◌, not, Bool, true, false, Option, none, some, List, [], ◌∷◌, ◌++◌,
  if◌then◌else◌, length,
}
use quantsim.Prelude.Float.{Float, nought}
use quantsim.Prelude.Text.{Text}
use quantsim.Backtest.Types.{
  Bar, Signal, hold, buy_next, sell_next, TradeRecord, bought, sold, SimulationResult,
}

abbrev pub Day : Type 0 → Type 0
Day F = List (Bar F × Signal)

pub record Slot (F : Type 0) : Type 0 where
  pub symbol : Text
  pub quantity : F
  pub avg_cost : F

-- The shared cash, the slots in the order of the symbols, and the trades of this bar so far.
pub record Pool (F : Type 0) : Type 0 where
  pub cash : F
  pub slots : List (Slot F)
  pub trades : List (TradeRecord F)

pub is_sell : Signal → Bool
is_sell sell_next = true
is_sell _ = false

pub is_buy : Signal → Bool
is_buy buy_next = true
is_buy _ = false

module _ {F : Type 0} ⦃f : Float F⦄ where
  -- Go's built-in `min`, which is NaN where an operand is.
  pub least : F → F → F
  least a b = if f.lt b a then b else if f.eq b b then a else b

  -- Put a slot back in front of what the rest of the loop leaves.
  abbrev pub keep_slot : Slot F → Pool F → Pool F
  keep_slot s p = record p { slots = s ∷ p.slots }

  -- The first loop: liquidate what the signal of the bar before says to sell. Trades are appended.
  pub sells : List (Slot F) → Day F → Day F → F → List (TradeRecord F) → Pool F
  unfolding is_sell
  sells [] before today cash trades = record { cash = cash; slots = []; trades = trades }
  sells (s ∷ ss) [] today cash trades = record { cash = cash; slots = s ∷ ss; trades = trades }
  sells (s ∷ ss) (b ∷ before) [] cash trades = record {
    cash = cash;
    slots = s ∷ ss;
    trades = trades;
  }
  sells (s ∷ ss) ((_, signal) ∷ before) ((bar, _) ∷ today) cash trades =
      let skipped = keep_slot s (sells ss before today cash trades) in
      let pl = f.mul (f.sub bar.open_price s.avg_cost) s.quantity in
      let record_sold : TradeRecord F = record {
        symbol = s.symbol;
        side = sold;
        bar_timestamp = bar.timestamp;
        price = bar.open_price;
        quantity = s.quantity;
        realized_pl = some pl;
      } in
      let done =
        keep_slot (record s { quantity = nought; avg_cost = nought })
          (sells ss before today (f.add cash (f.mul s.quantity bar.open_price))
            (trades ++ (record_sold ∷ []))) in
      if not (is_sell signal) || f.eq s.quantity nought then skipped else done

  -- The value of the slots on top of a sum, by a price of the bar.
  pub value_by : (Bar F → F) → List (Slot F) → Day F → F → F
  value_by at [] today sum = sum
  value_by at (s ∷ ss) [] today_sum = today_sum
  value_by at (s ∷ ss) ((bar, _) ∷ today) sum =
      value_by at ss today (f.add sum (f.mul s.quantity (at bar)))

  -- The second loop: buy, up to the target, what the signal of the bar before says to buy.
  pub buys : F → List (Slot F) → Day F → Day F → F → List (TradeRecord F) → Pool F
  unfolding is_buy least
  buys target [] before today cash trades = record { cash = cash; slots = []; trades = trades }
  buys target (s ∷ ss) [] today cash trades = record {
    cash = cash;
    slots = s ∷ ss;
    trades = trades;
  }
  buys target (s ∷ ss) (b ∷ before) [] cash trades = record {
    cash = cash;
    slots = s ∷ ss;
    trades = trades;
  }
  buys target (s ∷ ss) ((_, signal) ∷ before) ((bar, _) ∷ today) cash trades =
      let skipped = keep_slot s (buys target ss before today cash trades) in
      let spend = least cash target in
      let quantity = f.div spend bar.open_price in
      let record_bought : TradeRecord F = record {
        symbol = s.symbol;
        side = bought;
        bar_timestamp = bar.timestamp;
        price = bar.open_price;
        quantity = quantity;
        realized_pl = none;
      } in
      let done =
        keep_slot (record s { quantity = quantity; avg_cost = bar.open_price })
          (buys target ss before today (f.sub cash spend) (trades ++ (record_bought ∷ []))) in
      if not (is_buy signal) || not (f.eq s.quantity nought)
      then skipped
      else if f.le spend nought
      then skipped
      else done

  -- A bar after the first: the sells, the target, the buys.
  pub trade_day : Day F → Day F → Pool F → Pool F
  unfolding sells buys value_by
  trade_day before today p =
      let sold_out = sells p.slots before today p.cash p.trades in
      let at_open = value_by (λ (b : Bar F). b.open_price) sold_out.slots today sold_out.cash in
      buys (f.div at_open (f.of_ℕ (length p.slots))) sold_out.slots before today sold_out.cash
        sold_out.trades

  -- The equity at the close.
  pub marked : Pool F → Day F → F
  unfolding value_by
  marked p today = value_by (λ (b : Bar F). b.close_price) p.slots today p.cash

  -- The bars after the first: what the account holds after each.
  pub run : Day F → Pool F → List (Day F) → List (Pool F × F)
  unfolding trade_day marked
  run before p [] = []
  run before p (today ∷ days) =
      let p' = trade_day before today p in (p', marked p' today) ∷ run today p' days

  -- The account and the equity after each bar; nothing is traded at the first.
  pub account_by_bar : Pool F → List (Day F) → List (Pool F × F)
  unfolding run marked
  account_by_bar p [] = []
  account_by_bar p (first ∷ days) = (p, marked p first) ∷ run first p days

  pub empty_slots : List Text → List (Slot F)
  empty_slots [] = []
  empty_slots (s ∷ ss) =
      record { symbol = s; quantity = nought; avg_cost = nought } ∷ empty_slots ss

  -- What the last bar leaves, from a state before it.
  pub last_of : Pool F × F → List (Pool F × F) → Pool F × F
  last_of x [] = x
  last_of x (y ∷ ys) = last_of y ys

  pub equities : List (Pool F × F) → List F
  equities [] = []
  equities ((p, e) ∷ rest) = e ∷ equities rest

  pub simulate_portfolio : List Text → List (Day F) → F → SimulationResult F
  unfolding account_by_bar empty_slots last_of equities
  simulate_portfolio symbols days starting_capital =
      let start : Pool F = record {
        cash = starting_capital;
        slots = empty_slots symbols;
        trades = [];
      } in
      let bars = account_by_bar start days in
      let (p, final) = last_of (start, starting_capital) bars in
      record { trades = p.trades; equity_curve = equities bars; final_equity = final }

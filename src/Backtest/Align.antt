-- ===== src/Backtest/Align.antt =====
-- One timeline for several symbols (services/backtesting/internal/service/align.go, and sliceRange of
-- backtest.go). An instant is a number of nanoseconds, a day the number of whole days in it.
pub mod Days
pub mod Drawn
pub mod Timeline
mod Tests
use quantsim.Prelude.{
  ℕ, zero, suc, ◌+◌, ◌/◌, ◌≡◌, Bool, true, false, not, ◌&&◌, Option, none, some, List, [], ◌∷◌, map,
  length, ltb, if◌then◌else◌,
}
use quantsim.Prelude.Keys.{nat_keys}
use quantsim.Prelude.Map.{Map, lookup, insert}
use quantsim.Prelude.Text.{Text, text_keys}
use quantsim.Trading.Listing.{order_by}
use quantsim.Insights.Types.{text_before}
use quantsim.Backtest.Types.{Bar}

abbrev pub one_day : ℕ
one_day = 86_400_000_000_000

module _ {F : Type 0} where
  -- `dayKey`
  abbrev pub day_key : Bar F → ℕ
  day_key b = b.timestamp / one_day

  unfoldable pub slice_range : ℕ → ℕ → List (Bar F) → List (Bar F)
  slice_range from until [] = []
  slice_range from until (b ∷ bars) =
      let rest = slice_range from until bars in
      if not (ltb b.timestamp from) && ltb b.timestamp (until + one_day) then b ∷ rest else rest

  -- The bars of a symbol by their days, the last one of a day
  unfoldable pub by_day : List (Bar F) → Map ℕ (Bar F) → Map ℕ (Bar F)
  by_day [] days = days
  by_day (b ∷ bars) days = by_day bars (insert (day_key b) b days)

  -- The inner loop: the bars of the other symbols on a day, `none` where one has none
  abbrev pub join : Option (Bar F) → Option (List (Bar F)) → Option (List (Bar F))
  join none bars = none
  join (some b) none = none
  join (some b) (some bars) = some (b ∷ bars)

  unfoldable pub matches_on : ℕ → List (Map ℕ (Bar F)) → Option (List (Bar F))
  matches_on key [] = some []
  matches_on key (days ∷ others) = join (lookup key days) (matches_on key others)

  -- `aligned[i] = append(aligned[i], b)` for each symbol
  abbrev pub add_row : List (Bar F) → List (List (Bar F)) → List (List (Bar F))
  add_row [] columns = []
  add_row (b ∷ row) [] = []
  add_row (b ∷ row) (column ∷ columns) = (b ∷ column) ∷ add_row row columns

  abbrev pub add_match : Bar F → Option (List (Bar F)) → List (List (Bar F)) → List (List (Bar F))
  add_match driver none columns = columns
  add_match driver (some row) columns = add_row (driver ∷ row) columns

  abbrev pub no_bars : List (Map ℕ (Bar F)) → List (List (Bar F))
  no_bars [] = []
  no_bars (days ∷ others) = [] ∷ no_bars others

  -- The loop over the first symbol's bars, which drives the order
  unfoldable pub align_rows : List (Map ℕ (Bar F)) → List (Bar F) → List (List (Bar F))
  unfolding matches_on
  align_rows others [] = [] ∷ no_bars others
  align_rows others (driver ∷ drivers) =
      let rest = align_rows others drivers in
      add_match driver (matches_on (day_key driver) others) rest

  abbrev bars_of : Option (List (Bar F)) → List (Bar F)
  bars_of none = []
  bars_of (some bars) = bars

  abbrev pub ranged : Map Text (List (Bar F)) → ℕ → ℕ → Text → List (Bar F)
  ranged bars from until symbol = slice_range from until (bars_of (lookup symbol bars))

  abbrev pub align_symbols : Map Text (List (Bar F)) → ℕ → ℕ → List Text → List (List (Bar F))
  align_symbols bars from until [] = []
  align_symbols bars from until (symbol ∷ symbols) =
      align_rows (map (λ s. by_day (ranged bars from until s) []) symbols)
        (ranged bars from until symbol)

  unfoldable pub align_bars : Map Text (List (Bar F)) → ℕ → ℕ → List Text × List (List (Bar F))
  unfolding align_rows by_day slice_range text_before
  align_bars bars from until =
      let symbols = order_by text_before (map (λ entry. entry.0) bars) in
      (symbols, align_symbols bars from until symbols)

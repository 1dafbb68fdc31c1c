-- ===== src/Backtest/Align/Tests.antt =====
-- Two symbols, S with bars on the days 1 to 3 and Q on the days 2 to 4, asked for the days 1 and 2.
use quantsim.Prelude.{ℕ, ◌+◌, ◌*◌, ◌≡◌, refl, ap, List, [], ◌∷◌, map}
use quantsim.Prelude.Map.{Map, lookup, insert}
use quantsim.Prelude.Text.{Text, text_eq}
use quantsim.Trading.Listing.{order_by}
use quantsim.Insights.Types.{text_before}
use quantsim.Backtest.Types.{Bar}
use quantsim.Backtest.Align.{
  one_day, slice_range, by_day, matches_on, align_rows, ranged, align_bars,
}
use quantsim.Backtest.Align.Days.{IsTimeline}
use quantsim.Backtest.Align.Drawn.{Drawn}
use quantsim.Backtest.Align.Timeline.{shared_days, align_bars-Timeline}

abbrev bar_on : ℕ → ℕ → Bar ℕ
bar_on day price = record {
  timestamp = day * one_day + 7;
  open_price = price;
  high = price;
  low = price;
  close_price = price;
  volume = 1;
}

abbrev bars : Map Text (List (Bar ℕ))
bars =
    (83 ∷ [], bar_on 1 10 ∷ bar_on 2 11 ∷ bar_on 3 12 ∷ [])
    ∷ (81 ∷ [], bar_on 2 20 ∷ bar_on 3 21 ∷ bar_on 4 22 ∷ [])
    ∷ []

shared_day :
    align_bars bars one_day (2 * one_day)
    ≡ ((81 ∷ []) ∷ (83 ∷ []) ∷ [], (bar_on 2 20 ∷ []) ∷ (bar_on 2 11 ∷ []) ∷ [])
unfolding align_bars align_rows by_day matches_on slice_range order_by text_before lookup insert
    text_eq
shared_day = refl

align_bars-Timeline_example :
    IsTimeline 2
      (shared_days
        (map (ranged bars one_day (2 * one_day)) ((83 ∷ []) ∷ []))
        (ranged bars one_day (2 * one_day) (81 ∷ [])))
      (align_bars bars one_day (2 * one_day)).1
    × Drawn
        (map (ranged bars one_day (2 * one_day)) ((81 ∷ []) ∷ (83 ∷ []) ∷ []))
        (align_bars bars one_day (2 * one_day)).1
align_bars-Timeline_example =
    align_bars-Timeline bars one_day (2 * one_day) (81 ∷ []) ((83 ∷ []) ∷ [])
      (ap (λ r. r.0) shared_day)

-- ===== src/Backtest/Align/Timeline.antt =====
-- What one timeline of several symbols is: for each symbol a series of its bars, all over the same days.
use quantsim.Prelude.{
  ℕ, suc, ◌≡◌, refl, sym, ap, ◌∙◌, inl, inr, Bool, true, false, ◌&&◌, ◌||◌, Bool-cases, List, [],
  ◌∷◌, map, length, All, arith, ◌==◌, if◌then◌else◌,
}
use quantsim.Prelude.Keys.{nat_keys}
use quantsim.Prelude.Map.{Map, lookup, insert, lookup-insert}
use quantsim.Prelude.Text.{Text, text_keys}
use quantsim.Backtest.Types.{Bar}
use quantsim.Backtest.Align.{day_key, by_day, align_symbols, ranged, align_bars}
use quantsim.Backtest.Align.Days.{
  IsFiled, has, all_have, common_days, IsTimeline, by_day-IsFiled, align_rows-IsTimeline,
}
use quantsim.Backtest.Align.Drawn.{Drawn, align_rows-Drawn, IsBarOf-All}

length-map : {A : Type 0} {B : Type 0} (f : A → B) (xs : List A) → length (map f xs) ≡ length xs
length-map f [] = refl
length-map f (x ∷ xs) = ap suc (length-map f xs)

module _ {F : Type 0} where
  -- A series has a bar on a day.
  abbrev pub trades_on : ℕ → List (Bar F) → Bool
  trades_on key [] = false
  trades_on key (b ∷ bars) = (day_key b == key) || trades_on key bars

  abbrev pub all_trade_on : ℕ → List (List (Bar F)) → Bool
  all_trade_on key [] = true
  all_trade_on key (bars ∷ others) = trades_on key bars && all_trade_on key others

  -- The days of the first series, in its order, on which all the others have a bar
  abbrev pub shared_days : List (List (Bar F)) → List (Bar F) → List ℕ
  shared_days others [] = []
  shared_days others (driver ∷ drivers) =
      let rest = shared_days others drivers in
      if all_trade_on (day_key driver) others then day_key driver ∷ rest else rest

  has-by_day :
      (key : ℕ) (bars : List (Bar F)) (days : Map ℕ (Bar F))
      → has (lookup key (by_day bars days)) ≡ trades_on key bars || has (lookup key days)
  unfolding by_day
  has-by_day key [] days = refl
  has-by_day key (b ∷ bars) days =
      has-by_day key bars (insert (day_key b) b days) ∙ elim (Bool-cases (trades_on key bars)) [
        | inl same ↦ ground (arith, lookup-insert key (day_key b) b days)
        | inr other ↦ ground (arith, lookup-insert key (day_key b) b days)
      ]

  all_have-by_day :
      (key : ℕ) (others : List (List (Bar F)))
      → all_have key (map (λ bars. by_day bars []) others) ≡ all_trade_on key others
  unfolding lookup
  all_have-by_day key [] = refl
  all_have-by_day key (bars ∷ others) =
      rw (has-by_day key bars [], all_have-by_day key others) (ground arith)

  common_days-shared :
      (others : List (List (Bar F))) (drivers : List (Bar F))
      → common_days (map (λ bars. by_day bars []) others) drivers ≡ shared_days others drivers
  common_days-shared others [] = refl
  common_days-shared others (driver ∷ drivers) =
      rw (all_have-by_day (day_key driver) others, common_days-shared others drivers) refl

  by_day-All : (others : List (List (Bar F))) → All IsFiled (map (λ bars. by_day bars []) others)
  unfolding lookup
  by_day-All [] = tt
  by_day-All (bars ∷ others) = (by_day-IsFiled bars [] (λ key b e. ground arith), by_day-All others)

  map-ranged :
      (bars : Map Text (List (Bar F))) (from until : ℕ) (symbols : List Text)
      → map (λ s. by_day (ranged bars from until s) []) symbols
        ≡ map (λ series. by_day series []) (map (ranged bars from until) symbols)
  map-ranged bars from until [] = refl
  map-ranged bars from until (symbol ∷ symbols) =
      ap (λ rest. by_day (ranged bars from until symbol) [] ∷ rest)
        (map-ranged bars from until symbols)

  align_symbols-IsTimeline :
      (bars : Map Text (List (Bar F))) (from until : ℕ) (first : Text) (others : List Text)
      → IsTimeline
          (suc (length others))
          (shared_days (map (ranged bars from until) others) (ranged bars from until first))
          (align_symbols bars from until (first ∷ others))
  align_symbols-IsTimeline bars from until first others =
      let series = map (ranged bars from until) others in
      let t =
        align_rows-IsTimeline (map (λ bs. by_day bs []) series) (ranged bars from until first)
          (by_day-All series) in
      rw
        (
          map-ranged bars from until others,
          sym (common_days-shared series (ranged bars from until first)),
        )
        (
          t.0
              ∙ ap suc (
                  length-map (λ bs. by_day bs []) series
                  ∙ length-map (ranged bars from until) others),
          t.1,
        )

  align_symbols-Drawn :
      (bars : Map Text (List (Bar F))) (from until : ℕ) (first : Text) (others : List Text)
      → Drawn
          (map (ranged bars from until) (first ∷ others))
          (align_symbols bars from until (first ∷ others))
  align_symbols-Drawn bars from until first others =
      let series = ranged bars from until first in
      rw (map-ranged bars from until others)
        (align_rows-Drawn series (map (ranged bars from until) others) series (IsBarOf-All series))

  -- `alignBars`: for bars of the symbols `first ∷ others` (their sorted names), the result has one
  -- series for each symbol, in their order, each of bars of that symbol in the range, and the days of
  -- every series are the days of the first symbol's bars in the range on which every other symbol has
  -- a bar in the range, in the order of the first's bars.
  pub align_bars-Timeline :
      (bars : Map Text (List (Bar F))) (from until : ℕ) (first : Text) (others : List Text)
      → (align_bars bars from until).0 ≡ first ∷ others
      → IsTimeline
          (suc (length others))
          (shared_days (map (ranged bars from until) others) (ranged bars from until first))
          (align_bars bars from until).1
        × Drawn (map (ranged bars from until) (first ∷ others)) (align_bars bars from until).1
  unfolding align_bars
  align_bars-Timeline bars from until first others h = rw h (
    align_symbols-IsTimeline bars from until first others,
    align_symbols-Drawn bars from until first others,
  )

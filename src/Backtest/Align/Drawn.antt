-- ===== src/Backtest/Align/Drawn.antt =====
-- Whose bars the series of a timeline hold.
use quantsim.Prelude.{
  ℕ, ◌≡◌, ◌⊎◌, inl, inr, refl, Bool-cases, Option, none, some, List, [], ◌∷◌, map, All, arith, ◌==◌,
}
use quantsim.Prelude.Keys.{nat_keys}
use quantsim.Prelude.Map.{Map, lookup, insert, lookup-insert}
use quantsim.Backtest.Types.{Bar}
use quantsim.Backtest.Align.{
  day_key, by_day, join, matches_on, add_row, add_match, no_bars, align_rows,
}

module _ {F : Type 0} where
  abbrev pub IsBarOf : List (Bar F) → Bar F → Type 0
  IsBarOf [] b = ⊥
  IsBarOf (x ∷ series) b = (b ≡ x) ⊎ IsBarOf series b

  -- Each column holds bars of its own series only.
  abbrev pub Drawn : List (List (Bar F)) → List (List (Bar F)) → Type 0
  Drawn [] [] = Unit
  Drawn [] (column ∷ columns) = ⊥
  Drawn (series ∷ rest) [] = ⊥
  Drawn (series ∷ rest) (column ∷ columns) = All (IsBarOf series) column × Drawn rest columns

  -- One bar of each series
  abbrev Picked : List (List (Bar F)) → List (Bar F) → Type 0
  Picked [] [] = Unit
  Picked [] (b ∷ row) = ⊥
  Picked (series ∷ rest) [] = ⊥
  Picked (series ∷ rest) (b ∷ row) = IsBarOf series b × Picked rest row

  abbrev PickedRow : List (List (Bar F)) → Option (List (Bar F)) → Type 0
  PickedRow others none = Unit
  PickedRow others (some row) = Picked others row

  abbrev pub filed : List (List (Bar F)) → List (Map ℕ (Bar F))
  filed = map (λ series. by_day series [])

  by_day-IsBarOf :
      (key : ℕ) (b : Bar F) (bars : List (Bar F)) (days : Map ℕ (Bar F))
      → lookup key (by_day bars days) ≡ some b
      → IsBarOf bars b ⊎ (lookup key days ≡ some b)
  unfolding by_day
  by_day-IsBarOf key b [] days e = inr e
  by_day-IsBarOf key b (x ∷ bars) days e =
      elim (by_day-IsBarOf key b bars (insert (day_key x) x days) e) [
        | inl later ↦ inl (inr later)
        | inr here ↦ elim (Bool-cases (day_key x == key)) [
          | inl same ↦
              let this : some x ≡ some b = ground (arith, lookup-insert key (day_key x) x days) in
              inl (inl (cc this))
          | inr other ↦ inr (ground (arith, lookup-insert key (day_key x) x days))
        ]
      ]

  join-PickedRow :
      (series : List (Bar F)) (others : List (List (Bar F))) (o : Option (Bar F))
      (rest : Option (List (Bar F)))
      → ((b : Bar F) → o ≡ some b → IsBarOf series b)
      → PickedRow others rest
      → PickedRow (series ∷ others) (join o rest)
  join-PickedRow series others none rest h r = tt
  join-PickedRow series others (some b) none h r = tt
  join-PickedRow series others (some b) (some row) h r = (h b refl, r)

  matches_on-PickedRow :
      (key : ℕ) (others : List (List (Bar F))) → PickedRow others (matches_on key (filed others))
  unfolding matches_on lookup
  matches_on-PickedRow key [] = tt
  matches_on-PickedRow key (series ∷ others) =
      join-PickedRow series others (lookup key (by_day series [])) (matches_on key (filed others))
        (λ b e. elim (by_day-IsBarOf key b series [] e) [
          | inl of_it ↦ of_it
          | inr nowhere ↦ cc nowhere
        ])
        (matches_on-PickedRow key others)

  add_row-Drawn :
      (series : List (List (Bar F))) (row : List (Bar F)) (columns : List (List (Bar F)))
      → Picked series row
      → Drawn series columns
      → Drawn series (add_row row columns)
  add_row-Drawn [] [] [] p d = tt
  add_row-Drawn [] [] (column ∷ columns) p d = absurd d
  add_row-Drawn [] (b ∷ row) columns p d = absurd p
  add_row-Drawn (s ∷ rest) [] columns p d = absurd p
  add_row-Drawn (s ∷ rest) (b ∷ row) [] p d = absurd d
  add_row-Drawn (s ∷ rest) (b ∷ row) (column ∷ columns) p d =
      ((p.0, d.0), add_row-Drawn rest row columns p.1 d.1)

  add_match-Drawn :
      (driver : Bar F) (series : List (Bar F)) (others : List (List (Bar F)))
      (o : Option (List (Bar F))) (columns : List (List (Bar F)))
      → IsBarOf series driver
      → PickedRow others o
      → Drawn (series ∷ others) columns
      → Drawn (series ∷ others) (add_match driver o columns)
  add_match-Drawn driver series others none columns b p d = d
  add_match-Drawn driver series others (some row) columns b p d =
      add_row-Drawn (series ∷ others) (driver ∷ row) columns (b, p) d

  no_bars-Drawn : (others : List (List (Bar F))) → Drawn others (no_bars (filed others))
  no_bars-Drawn [] = tt
  no_bars-Drawn (series ∷ others) = (tt, no_bars-Drawn others)

  pub align_rows-Drawn :
      (series : List (Bar F)) (others : List (List (Bar F))) (drivers : List (Bar F))
      → All (IsBarOf series) drivers
      → Drawn (series ∷ others) (align_rows (filed others) drivers)
  unfolding align_rows
  align_rows-Drawn series others [] h = (tt, no_bars-Drawn others)
  align_rows-Drawn series others (driver ∷ drivers) h =
      add_match-Drawn driver series others (matches_on (day_key driver) (filed others))
        (align_rows (filed others) drivers) h.0 (matches_on-PickedRow (day_key driver) others)
        (align_rows-Drawn series others drivers h.1)

  IsBarOf-cons :
      (x : Bar F) (series bars : List (Bar F))
      → All (IsBarOf series) bars
      → All (IsBarOf (x ∷ series)) bars
  IsBarOf-cons x series [] h = tt
  IsBarOf-cons x series (b ∷ bars) h = (inr h.0, IsBarOf-cons x series bars h.1)

  pub IsBarOf-All : (series : List (Bar F)) → All (IsBarOf series) series
  IsBarOf-All [] = tt
  IsBarOf-All (x ∷ series) = (inl refl, IsBarOf-cons x series series (IsBarOf-All series))

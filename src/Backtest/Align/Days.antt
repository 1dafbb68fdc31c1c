-- ===== src/Backtest/Align/Days.antt =====
-- All series of a timeline have the same days.
use quantsim.Prelude.{
  ℕ, suc, ◌≡◌, refl, ap, ◌∙◌, inl, inr, Bool, true, false, ◌&&◌, Option, none, some, Bool-cases,
  List, [], ◌∷◌, map, length, All, arith, ◌==◌, ==_iff, if◌then◌else◌,
}
use quantsim.Prelude.Keys.{nat_keys}
use quantsim.Prelude.Map.{Map, lookup, insert, lookup-insert}
use quantsim.Backtest.Types.{Bar}
use quantsim.Backtest.Align.{
  day_key, by_day, matches_on, join, add_row, add_match, no_bars, align_rows,
}

module _ {F : Type 0} where
  -- Each bar is filed under its own day.
  abbrev pub IsFiled : Map ℕ (Bar F) → Type 0
  IsFiled days = (key : ℕ) (b : Bar F) → lookup key days ≡ some b → day_key b ≡ key

  insert-IsFiled :
      (b : Bar F) (days : Map ℕ (Bar F)) → IsFiled days → IsFiled (insert (day_key b) b days)
  insert-IsFiled b days h key c e = elim (Bool-cases (day_key b == key)) [
    | inl same ↦
        let filed : some b ≡ some c = ground (arith, lookup-insert key (day_key b) b days) in
        let day : day_key b ≡ key = (==_iff (day_key b) key).0 same in ground arith
    | inr other ↦ h key c (ground (arith, lookup-insert key (day_key b) b days))
  ]

  pub by_day-IsFiled :
      (bars : List (Bar F)) (days : Map ℕ (Bar F)) → IsFiled days → IsFiled (by_day bars days)
  unfolding by_day
  by_day-IsFiled [] days h = h
  by_day-IsFiled (b ∷ bars) days h =
      by_day-IsFiled bars (insert (day_key b) b days) (insert-IsFiled b days h)

  -- Every other symbol has a bar on a day.
  abbrev pub has : Option (Bar F) → Bool
  has none = false
  has (some b) = true

  abbrev pub all_have : ℕ → List (Map ℕ (Bar F)) → Bool
  all_have key [] = true
  all_have key (days ∷ others) = has (lookup key days) && all_have key others

  -- The days of the first symbol on which all the others have a bar
  abbrev pub common_days : List (Map ℕ (Bar F)) → List (Bar F) → List ℕ
  common_days others [] = []
  common_days others (driver ∷ drivers) =
      let rest = common_days others drivers in
      if all_have (day_key driver) others then day_key driver ∷ rest else rest

  abbrev pub days_of : List (Bar F) → List ℕ
  days_of = map (λ b. day_key b)

  -- A row of bars of one day, one for each symbol
  abbrev IsRow : ℕ → List (Map ℕ (Bar F)) → Option (List (Bar F)) → Type 0
  IsRow key others none = all_have key others ≡ false
  IsRow key others (some row) =
      (all_have key others ≡ true) × ((length row ≡ length others) × All (λ b. day_key b ≡ key) row)

  join-IsRow :
      (key : ℕ) (days : Map ℕ (Bar F)) (others : List (Map ℕ (Bar F))) (o : Option (Bar F))
      (rest : Option (List (Bar F)))
      → lookup key days ≡ o
      → ((b : Bar F) → o ≡ some b → day_key b ≡ key)
      → IsRow key others rest
      → IsRow key (days ∷ others) (join o rest)
  join-IsRow key days others none rest e h r = rw e refl
  join-IsRow key days others (some b) none e h r = rw e r
  join-IsRow key days others (some b) (some row) e h r =
      (rw e r.0, (ap suc r.1.0, (h b refl, r.1.1)))

  matches_on-IsRow :
      (key : ℕ) (others : List (Map ℕ (Bar F)))
      → All IsFiled others
      → IsRow key others (matches_on key others)
  unfolding matches_on
  matches_on-IsRow key [] h = (refl, (refl, tt))
  matches_on-IsRow key (days ∷ others) h =
      join-IsRow key days others (lookup key days) (matches_on key others) refl (h.0 key)
        (matches_on-IsRow key others h.1)

  -- As many series as symbols, all over the same days
  abbrev pub IsTimeline : ℕ → List ℕ → List (List (Bar F)) → Type 0
  IsTimeline n days columns = (length columns ≡ n) × All (λ series. days_of series ≡ days) columns

  add_row-IsTimeline :
      (key n : ℕ) (days : List ℕ) (row : List (Bar F)) (columns : List (List (Bar F)))
      → length row ≡ n
      → All (λ b. day_key b ≡ key) row
      → IsTimeline n days columns
      → IsTimeline n (key ∷ days) (add_row row columns)
  add_row-IsTimeline key n days [] columns l h t = (l, tt)
  add_row-IsTimeline key n days (b ∷ row) [] l h t = (t.0, tt)
  add_row-IsTimeline key n days (b ∷ row) (column ∷ columns) l h t =
      let rest =
        add_row-IsTimeline key (length row) days row columns refl h.1 (ground arith, t.1.1) in
      (ap suc rest.0 ∙ l, (ground arith, rest.1))

  no_bars-IsTimeline :
      (others : List (Map ℕ (Bar F))) → IsTimeline (length others) [] (no_bars others)
  no_bars-IsTimeline [] = (refl, tt)
  no_bars-IsTimeline (days ∷ others) =
      let rest = no_bars-IsTimeline others in (ap suc rest.0, (refl, rest.1))

  add_match-IsTimeline :
      (driver : Bar F) (others : List (Map ℕ (Bar F))) (days : List ℕ) (o : Option (List (Bar F)))
      (columns : List (List (Bar F)))
      → IsRow (day_key driver) others o
      → IsTimeline (suc (length others)) days columns
      → IsTimeline
          (suc (length others))
          (if all_have (day_key driver) others then day_key driver ∷ days else days)
          (add_match driver o columns)
  add_match-IsTimeline driver others days none columns r t = rw r t
  add_match-IsTimeline driver others days (some row) columns r t = rw r.0 (
      add_row-IsTimeline (day_key driver) (suc (length others)) days (driver ∷ row) columns
        (ap suc r.1.0) (refl, r.1.1) t)

  pub align_rows-IsTimeline :
      (others : List (Map ℕ (Bar F))) (drivers : List (Bar F))
      → All IsFiled others
      → IsTimeline (suc (length others)) (common_days others drivers) (align_rows others drivers)
  unfolding align_rows
  align_rows-IsTimeline others [] h =
      let rest = no_bars-IsTimeline others in (ap suc rest.0, (refl, rest.1))
  align_rows-IsTimeline others (driver ∷ drivers) h =
      add_match-IsTimeline driver others (common_days others drivers)
        (matches_on (day_key driver) others) (align_rows others drivers)
        (matches_on-IsRow (day_key driver) others h) (align_rows-IsTimeline others drivers h)

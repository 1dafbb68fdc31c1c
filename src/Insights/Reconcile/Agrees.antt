-- ===== src/Insights/Reconcile/Agrees.antt =====
-- What the guard's consent means.
use mathlib.Core.Path.{subst}
use quantsim.Prelude.{
  ℕ, ◌+◌, ◌≤◌, ◌≡◌, refl, sym, ◌∙◌, inl, inr, true, false, Option, none, some, List, [], ◌∷◌, ◌++◌,
  map, Bool-cases, arith,
}
use quantsim.Prelude.Float.{Float}
use quantsim.Prelude.Map.{Map, lookup}
use quantsim.Prelude.Text.{Text, text_eq, text_eq_iff, text_keys}
use quantsim.Trading.Listing.{order_by}
use quantsim.Trading.Listing.Sorting.{tally, SameRows, order_by-SameRows}
use quantsim.Insights.Types.{Bar, Trade, Reconstruction, LivePortfolio, text_before}
use quantsim.Insights.Replay.{replayed, reconstruct, opening}
use quantsim.Insights.Calendar.{calendar, calendar-Ascending}
use quantsim.Insights.Replay.Cut.{apply_all}
use quantsim.Insights.Replay.Once.{reconstruct-Once}
use quantsim.Insights.Reconcile.{
  last, abs, cash_tolerance, quantity_tolerance, project_past_calendar, live_positions, diverges,
  any_diverges, sorted_union, refuses_from, reconcile,
}

-- How often a symbol stands in a list
abbrev times : Text → List Text → ℕ
times symbol = tally (λ s. text_eq s symbol)

times-append :
    (symbol : Text) (xs ys : List Text)
    → times symbol (xs ++ ys) ≡ times symbol xs + times symbol ys
times-append symbol [] ys = omega arith
times-append symbol (x ∷ xs) ys = omega (arith, times-append symbol xs ys)

module _ {F : Type 0} ⦃f : Float F⦄ where
  -- Both hold none of a symbol, or both hold it and the amounts are within the tolerance.
  abbrev pub Agree : Option F → Option F → Type 0
  Agree none none = Unit
  Agree none (some b) = true ≡ false
  Agree (some a) none = true ≡ false
  Agree (some a) (some b) = f.lt quantity_tolerance (abs (f.sub a b)) ≡ false

  listed_lem :
      (symbol : Text) (m : Map Text F) (q : F)
      → lookup symbol m ≡ some q
      → 1 ≤ times symbol (map (λ entry. entry.0) m)
  unfolding lookup
  listed_lem symbol [] q e = cc e
  listed_lem symbol ((s, v) ∷ m) q e = elim (Bool-cases (text_eq s symbol)) [
    | inl same ↦ ground arith
    | inr other ↦ ground (arith, listed_lem symbol m q (ground arith))
  ]

  not_diverging :
      (a b : Map Text F) (symbol : Text) (symbols : List Text)
      → any_diverges a b symbols ≡ false
      → 1 ≤ times symbol symbols
      → diverges (lookup symbol a) (lookup symbol b) ≡ false
  unfolding any_diverges
  not_diverging a b symbol [] e h = ground (arith, h)
  not_diverging a b symbol (s ∷ symbols) e h = elim (Bool-cases (text_eq s symbol)) [
    | inl same ↦
        let is : s ≡ symbol = (text_eq_iff s symbol).0 same in
        let fine : diverges (lookup s a) (lookup s b) ≡ false = ground arith in
        subst (λ x. diverges (lookup x a) (lookup x b) ≡ false) is fine
    | inr other ↦ not_diverging a b symbol symbols (ground arith) (ground arith)
  ]

  agree_lem :
      (x y : Option F)
      → ((q : F) → x ≡ some q → diverges x y ≡ false)
      → ((q : F) → y ≡ some q → diverges x y ≡ false)
      → Agree x y
  agree_lem none none h k = tt
  agree_lem none (some b) h k = k b refl
  agree_lem (some a) none h k = h a refl
  agree_lem (some a) (some b) h k = h a refl

  union-Agree :
      (a b : Map Text F) (symbol : Text)
      → any_diverges a b (sorted_union a b) ≡ false
      → Agree (lookup symbol a) (lookup symbol b)
  unfolding sorted_union
  union-Agree a b symbol e =
      let keys_a = map (λ (entry : Text × F). entry.0) a in
      let keys_b = map (λ (entry : Text × F). entry.0) b in
      let same = order_by-SameRows text_before (keys_a ++ keys_b) (λ s. text_eq s symbol) in
      let parts = times-append symbol keys_a keys_b in
      agree_lem (lookup symbol a) (lookup symbol b)
        (λ q is.
          not_diverging a b symbol (order_by text_before (keys_a ++ keys_b)) e
            (omega (arith, same, parts, listed_lem symbol a q is)))
        (λ q is.
          not_diverging a b symbol (order_by text_before (keys_a ++ keys_b)) e
            (omega (arith, same, parts, listed_lem symbol b q is)))

  refuses_from_lem :
      (as_of : ℕ) (cash : F) (r : Reconstruction F) (trades : List (Trade F))
      (live : LivePortfolio F)
      → refuses_from as_of cash r trades live ≡ false
      → let b = project_past_calendar as_of cash r trades in
        let positions = live_positions live.positions [] in
        (f.lt cash_tolerance (abs (f.sub b.cash live.balance)) ≡ false)
        × (any_diverges b.holdings positions (sorted_union b.holdings positions) ≡ false)
  unfolding refuses_from
  refuses_from_lem as_of cash r trades live e = (ground arith, ground arith)

  reconcile_lem :
      (r : Reconstruction F) (trades : List (Trade F)) (live : LivePortfolio F) (d : ℕ)
      (ds : List ℕ) (c : F) (cs : List F)
      → r.dates ≡ d ∷ ds
      → r.cash ≡ c ∷ cs
      → reconcile r trades live ≡ refuses_from (last d ds) (last c cs) r trades live
  unfolding reconcile
  reconcile_lem r trades live d ds c cs dates cash = rw (dates, cash) refl

  -- The guard's consent is worth something. Where a replay over a calendar of bars succeeds, has at
  -- least one date and is not refused, the account holds what its trade log says: there is an order of
  -- all the trades, each counted once, such that applying them to the opening balance gives a sum that
  -- is not more than a cent from the live balance and, for each symbol, either no holding on both sides
  -- or holdings on both sides that are not more than 1e-4 apart.
  pub reconcile-Agree :
      (trades : List (Trade F)) (bars spans : Map Text (List (Bar F))) (live : LivePortfolio F)
      (r : Reconstruction F) (d : ℕ) (ds : List ℕ) (c : F) (cs : List F)
      → reconstruct trades bars (calendar spans) ≡ replayed r
      → r.dates ≡ d ∷ ds
      → r.cash ≡ c ∷ cs
      → reconcile r trades live ≡ false
      → (applied : List (Trade F)) × (SameRows applied trades
          × (let b = apply_all applied opening in
              (f.lt cash_tolerance (abs (f.sub b.cash live.balance)) ≡ false)
              × ((symbol : Text)
                  → Agree
                      (lookup symbol b.holdings)
                      (lookup symbol (live_positions live.positions [])))))
  reconcile-Agree trades bars spans live r d ds c cs e dates cash consent =
      let (applied, (same, state)) =
        reconstruct-Once trades bars (calendar spans) r d ds c cs (calendar-Ascending spans) e dates
          cash in
      let passed = sym (reconcile_lem r trades live d ds c cs dates cash) ∙ consent in
      let (near, agree) = refuses_from_lem (last d ds) (last c cs) r trades live passed in
      let b = project_past_calendar (last d ds) (last c cs) r trades in
      let positions = live_positions live.positions [] in
      (
        applied,
        (
          same,
          (
            subst (λ x. f.lt cash_tolerance (abs (f.sub x.cash live.balance)) ≡ false) state near,
            λ symbol.
                subst (λ x. Agree (lookup symbol x.holdings) (lookup symbol positions)) state
                  (union-Agree b.holdings positions symbol agree),
          ),
        ),
      )

-- ===== src/Insights/Reconcile.antt =====
-- The guard that checks a replay against the live account
-- (services/ai-insights/internal/service/reconcile.go).
pub mod Agrees
use quantsim.Prelude.{
  ℕ, Bool, true, false, Option, none, some, List, [], ◌∷◌, ◌++◌, map, leb, if◌then◌else◌,
}
use quantsim.Prelude.Float.{Float, nought}
use quantsim.Prelude.Map.{Map, lookup, insert}
use quantsim.Prelude.Text.{Text, text_keys}
use quantsim.Trading.Listing.{order_by}
use quantsim.Insights.Types.{Trade, Reconstruction, LivePosition, LivePortfolio, day, text_before}
use quantsim.Insights.Replay.{Book, apply_trade, held}

-- `r.Dates[len(r.Dates)-1]` and the like of a list that is not empty
abbrev pub last : {A : Type 0} → A → List A → A
last x [] = x
last x (y ∷ ys) = last y ys

module _ {F : Type 0} ⦃f : Float F⦄ where
  -- `math.Abs`
  abbrev pub abs : F → F
  abs x = if f.lt x nought then f.neg x else x

  -- 0.01 and 1e-4
  abbrev pub cash_tolerance : F
  cash_tolerance = f.div (f.of_ℕ 1) (f.of_ℕ 100)

  abbrev pub quantity_tolerance : F
  quantity_tolerance = f.div (f.of_ℕ 1) (f.of_ℕ 10_000)

  -- The loop of `projectPastCalendar`
  unfoldable pub apply_after : ℕ → List (Trade F) → Book F → Book F
  apply_after as_of [] b = b
  apply_after as_of (t ∷ ts) b =
      apply_after as_of ts (if leb (day t.executed_at) as_of then b else apply_trade t b)

  unfoldable pub project_past_calendar : ℕ → F → Reconstruction F → List (Trade F) → Book F
  unfolding apply_after
  project_past_calendar as_of cash r trades =
      apply_after as_of trades (record { cash = cash; holdings = r.holdings })

  unfoldable pub live_positions : List (LivePosition F) → Map Text F → Map Text F
  live_positions [] m = m
  live_positions (p ∷ ps) m =
      live_positions ps
        (if f.lt quantity_tolerance (abs p.quantity) then insert p.symbol p.quantity m else m)

  -- The `switch` over one symbol: whether it is an error
  abbrev pub diverges : Option F → Option F → Bool
  diverges derived none = true
  diverges none (some actual) = true
  diverges (some derived) (some actual) = f.lt quantity_tolerance (abs (f.sub derived actual))

  unfoldable pub any_diverges : Map Text F → Map Text F → List Text → Bool
  any_diverges derived live [] = false
  any_diverges derived live (symbol ∷ symbols) =
      let rest = any_diverges derived live symbols in
      if diverges (lookup symbol derived) (lookup symbol live) then true else rest

  -- `sortedUnion`; a symbol that both maps have may be listed twice, which changes no outcome.
  unfoldable pub sorted_union : Map Text F → Map Text F → List Text
  unfolding text_before
  sorted_union a b = order_by text_before (map (λ entry. entry.0) a ++ map (λ entry. entry.0) b)

  -- Whether `Reconcile` refuses. The dates and the cash of a replay are as long as each other.
  unfoldable pub refuses_from : ℕ → F → Reconstruction F → List (Trade F) → LivePortfolio F → Bool
  unfolding project_past_calendar live_positions any_diverges sorted_union
  refuses_from as_of cash r trades live =
      let b = project_past_calendar as_of cash r trades in
      let positions = live_positions live.positions [] in
      if f.lt cash_tolerance (abs (f.sub b.cash live.balance))
      then true
      else any_diverges b.holdings positions (sorted_union b.holdings positions)

  abbrev reconcile_rows :
      List ℕ → List F → Reconstruction F → List (Trade F) → LivePortfolio F → Bool
  reconcile_rows [] cash r trades live = false
  reconcile_rows (d ∷ ds) [] r trades live = false
  reconcile_rows (d ∷ ds) (c ∷ cs) r trades live =
      refuses_from (last d ds) (last c cs) r trades live

  unfoldable pub reconcile : Reconstruction F → List (Trade F) → LivePortfolio F → Bool
  unfolding refuses_from
  reconcile r trades live = reconcile_rows r.dates r.cash r trades live

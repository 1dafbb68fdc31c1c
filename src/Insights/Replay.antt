-- ===== src/Insights/Replay.antt =====
-- The replay of the trade log (services/ai-insights/internal/service/reconstruct.go). `sort` is
-- stable, as `sort.SliceStable` is.
pub mod Cut
pub mod Once
use quantsim.Prelude.{
  ℕ, ◌+◌, ◌^◌, Bool, true, false, ◌&&◌, Option, none, some, List, [], ◌∷◌, ◌++◌, map, ltb, leb,
  if◌then◌else◌,
}
use quantsim.Prelude.Float.{Float, nought}
use quantsim.Prelude.Keys.{nat_keys}
use quantsim.Prelude.Map.{Map, lookup, insert, erase}
use quantsim.Prelude.Text.{Text, text_keys}
use quantsim.Trading.Listing.{order_by}
use quantsim.Insights.Types.{
  Bar, Side, side_sell, side_other, Trade, Reconstruction, day, starting_balance, text_before,
}

-- The sum of an account, and what it holds
pub record Book (F : Type 0) : Type 0 where
  pub cash : F
  pub holdings : Map Text F

-- A curve that could be drawn, or `ErrMissingClose`
pub data Replayed (F : Type 0) : Type 0 where
  replayed : Reconstruction F → Replayed F
  missing_close : Replayed F

abbrev pub day_before : {F : Type 0} → Trade F → Trade F → Bool
day_before s t = ltb (day s.executed_at) (day t.executed_at)

-- `date.Before(firstTradeDay)`: the dates that are skipped
unfoldable pub drop_before : ℕ → List ℕ → List ℕ
drop_before first [] = []
drop_before first (date ∷ dates) =
    let rest = drop_before first dates in if ltb date first then rest else date ∷ rest

module _ {F : Type 0} ⦃f : Float F⦄ where
  -- 1e-9
  abbrev pub dust_quantity : F
  dust_quantity = f.div (f.of_ℕ 1) (f.of_ℕ 1_000_000_000)

  -- `m[k]` without its second result
  abbrev pub held : Option F → F
  held none = nought
  held (some q) = q

  -- The last `if` of `applyTrade`
  abbrev pub settled : Text → F → Map Text F → Map Text F
  settled symbol q hs =
      if f.lt (f.neg dust_quantity) q && f.lt q dust_quantity
      then erase symbol (insert symbol q hs)
      else insert symbol q hs

  unfoldable pub apply_trade : Trade F → Book F → Book F
  apply_trade t b =
      let amount = f.mul t.quantity t.price in
      let q = held (lookup t.symbol b.holdings) in
      elim (t.side) [
        | side_sell ↦ record {
          cash = f.add b.cash amount;
          holdings = settled t.symbol (f.sub q t.quantity) b.holdings;
        }
        | side_other s ↦ record {
          cash = f.sub b.cash amount;
          holdings = settled t.symbol (f.add q t.quantity) b.holdings;
        }
      ]

  -- The inner loop: the trades that are due on a date, and those that are not
  unfoldable pub apply_due : ℕ → List (Trade F) → Book F → Book F × List (Trade F)
  unfolding apply_trade
  apply_due date [] b = (b, [])
  apply_due date (t ∷ ts) b =
      let rest = apply_due date ts (apply_trade t b) in
      if leb (day t.executed_at) date then rest else (b, t ∷ ts)

  -- `closesBySymbolAndDay` for one symbol: the latest bar of a day
  abbrev later_bar : ℕ → Option (ℕ × F) → Bool
  later_bar instant none = true
  later_bar instant (some seen) = leb seen.0 instant

  unfoldable pub closes_by_day : List (Bar F) → Map ℕ (ℕ × F) → Map ℕ (ℕ × F)
  closes_by_day [] closes = closes
  closes_by_day (b ∷ bars) closes = closes_by_day bars (
      if later_bar b.timestamp (lookup (day b.timestamp) closes)
      then insert (day b.timestamp) (b.timestamp, b.close) closes
      else closes)

  unfoldable pub closes_by_symbol_and_day : Map Text (List (Bar F)) → Map Text (Map ℕ (ℕ × F))
  unfolding closes_by_day
  closes_by_symbol_and_day = map (λ entry. (entry.0, closes_by_day entry.1 []))

  -- `closes[symbol][date]`
  abbrev close_on : Map Text (Map ℕ (ℕ × F)) → Text → ℕ → Option (ℕ × F)
  close_on closes symbol date = elim (lookup symbol closes) [
    | none ↦ none
    | some days ↦ lookup date days
  ]

  -- The equity of a date: the sum over the symbols in their order
  unfoldable pub value_holdings :
      Map Text (Map ℕ (ℕ × F)) → ℕ → Map Text F → List Text → F → Option F
  value_holdings closes date hs [] equity = some equity
  value_holdings closes date hs (symbol ∷ symbols) equity = elim (close_on closes symbol date) [
    | none ↦ none
    | some px ↦
        value_holdings closes date hs symbols (f.add equity (f.mul (held (lookup symbol hs)) px.1))
  ]

  unfoldable pub sorted_symbols : Map Text F → List Text
  unfolding text_before
  sorted_symbols hs = order_by text_before (map (λ entry. entry.0) hs)

  -- One more date at the front of the curve
  abbrev pub draw : ℕ → F → F → Replayed F → Replayed F
  draw date cash equity missing_close = missing_close
  draw date cash equity (replayed r) =
      replayed
        (record r { dates = date ∷ r.dates; equity = equity ∷ r.equity; cash = cash ∷ r.cash })

  abbrev pub draw_if : ℕ → F → Option F → Replayed F → Replayed F
  draw_if date cash none rest = missing_close
  draw_if date cash (some equity) rest = draw date cash equity rest

  -- The loop over the dates from the first trade on
  unfoldable pub replay_dates :
      Map Text (Map ℕ (ℕ × F)) → List ℕ → List (Trade F) → Book F → Replayed F
  unfolding apply_due value_holdings sorted_symbols
  replay_dates closes [] ts b =
      replayed (record { dates = []; equity = []; cash = []; holdings = b.holdings })
  replay_dates closes (date ∷ dates) ts b =
      let (b', ts') = apply_due date ts b in
      draw_if date b'.cash
        (value_holdings closes date b'.holdings (sorted_symbols b'.holdings) b'.cash)
        (replay_dates closes dates ts' b')

  abbrev pub opening : Book F
  opening = record { cash = starting_balance; holdings = [] }

  abbrev first_day : List (Trade F) → ℕ
  first_day [] = 0
  first_day (t ∷ ts) = day t.executed_at

  abbrev pub no_history : Reconstruction F
  no_history = record { dates = []; equity = []; cash = []; holdings = [] }

  unfoldable pub reconstruct : List (Trade F) → Map Text (List (Bar F)) → List ℕ → Replayed F
  unfolding closes_by_symbol_and_day replay_dates drop_before
  reconstruct [] bars calendar = replayed no_history
  reconstruct (t ∷ ts) bars [] = replayed no_history
  reconstruct (t ∷ ts) bars (date ∷ calendar) =
      let ordered = order_by day_before (t ∷ ts) in
      replay_dates (closes_by_symbol_and_day bars)
        (drop_before (first_day ordered) (date ∷ calendar)) ordered opening

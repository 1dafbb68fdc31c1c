-- ===== src/Insights/Calendar.antt =====
-- The dates on which every symbol has a bar (services/ai-insights/internal/service/calendar.go).
use quantsim.Prelude.{
  ℕ, ◌≤◌, ◌≡◌, Bool, true, false, Option, none, some, List, [], ◌∷◌, All, length, ltb, ◌==◌, arith,
  if◌then◌else◌,
}
use quantsim.Prelude.Keys.{nat_keys}
use quantsim.Prelude.Map.{Map, lookup, insert}
use quantsim.Prelude.Text.{Text, text_eq}
use quantsim.Trading.Listing.{order_by}
use quantsim.Trading.Listing.Sorting.{InOrder, order_by-InOrder}
use quantsim.Insights.Types.{Bar, day}

-- `seen[day][symbol] = struct{}{}` on the members of the set
abbrev member : Text → List Text → Bool
member symbol [] = false
member symbol (s ∷ symbols) =
    let rest = member symbol symbols in if text_eq s symbol then true else rest

abbrev noted : Text → Option (List Text) → List Text
noted symbol none = symbol ∷ []
noted symbol (some symbols) = if member symbol symbols then symbols else symbol ∷ symbols

-- The dates whose set has every symbol
full_dates : ℕ → Map ℕ (List Text) → List ℕ
full_dates symbols [] = []
full_dates symbols ((date, seen) ∷ m) =
    let rest = full_dates symbols m in if length seen == symbols then date ∷ rest else rest

module _ {F : Type 0} where
  see_bars : Text → List (Bar F) → Map ℕ (List Text) → Map ℕ (List Text)
  see_bars symbol [] seen = seen
  see_bars symbol (b ∷ bars) seen =
      let date = day b.timestamp in
      see_bars symbol bars (insert date (noted symbol (lookup date seen)) seen)

  see_all : Map Text (List (Bar F)) → Map ℕ (List Text) → Map ℕ (List Text)
  unfolding see_bars
  see_all [] seen = seen
  see_all ((symbol, bars) ∷ rest) seen = see_all rest (see_bars symbol bars seen)

  -- With no symbol nothing is seen.
  unfoldable pub calendar : Map Text (List (Bar F)) → List ℕ
  unfolding full_dates see_all
  calendar bars = order_by ltb (full_dates (length bars) (see_all bars []))

-- No date is later than one behind it.
abbrev pub Ascending : List ℕ → Type 0
Ascending [] = Unit
Ascending (d ∷ ds) = All (λ e. d ≤ e) ds × Ascending ds

All-lower : (d e : ℕ) (ds : List ℕ) → d ≤ e → All (λ x. e ≤ x) ds → All (λ x. d ≤ x) ds
All-lower d e [] h a = tt
All-lower d e (x ∷ ds) h a = (omega (arith, h, a.0), All-lower d e ds h a.1)

InOrder-Ascending : (ds : List ℕ) → InOrder ltb ds → Ascending ds
InOrder-Ascending [] o = tt
InOrder-Ascending (d ∷ []) o = (tt, tt)
InOrder-Ascending (d ∷ e ∷ ds) o =
    let rest = InOrder-Ascending (e ∷ ds) o.1 in
    let h : d ≤ e = ground (arith, o.0) in ((h, All-lower d e ds h rest.0), rest)

ltb_asym : (d e : ℕ) → ltb d e ≡ true → ltb e d ≡ false
ltb_asym d e h = ground arith

pub calendar-Ascending : {F : Type 0} (bars : Map Text (List (Bar F))) → Ascending (calendar bars)
unfolding calendar
calendar-Ascending bars =
    let dates = full_dates (length bars) (see_all bars []) in
    InOrder-Ascending (order_by ltb dates) (order_by-InOrder ltb ltb_asym dates)

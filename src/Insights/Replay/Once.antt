-- ===== src/Insights/Replay/Once.antt =====
-- Each trade of the log counts exactly once in the state that the guard compares.
use mathlib.Core.Path.{subst}
use quantsim.Prelude.{
  ℕ, ◌≤◌, ◌≡◌, refl, sym, ap, ◌∙◌, true, false, Option, none, some, List, [], ◌∷◌, ◌++◌, All, arith,
}
use quantsim.Prelude.Float.{Float}
use quantsim.Prelude.Map.{Map}
use quantsim.Prelude.Text.{Text}
use quantsim.Trading.Listing.{order_by}
use quantsim.Trading.Listing.Sorting.{SameRows, InOrder, order_by-SameRows, order_by-InOrder}
use quantsim.Insights.Types.{Bar, Trade, Reconstruction, day}
use quantsim.Insights.Replay.{
  draw_if, value_holdings, no_history, first_day, closes_by_symbol_and_day, sorted_symbols, Book,
  Replayed, replayed, missing_close, day_before, apply_due, replay_dates, drop_before, opening,
  reconstruct,
}
use quantsim.Insights.Reconcile.{last, project_past_calendar}
use quantsim.Insights.Calendar.{Ascending}
use quantsim.Insights.Replay.Cut.{
  apply_all, due, after_date, IsCut, apply_all-append, apply_after_lem, apply_due-Took,
  cut-SameRows,
}

drop_before-All :
    (first d : ℕ) (ds : List ℕ) → All (λ e. d ≤ e) ds → All (λ e. d ≤ e) (drop_before first ds)
unfolding drop_before
drop_before-All first d [] h = tt
drop_before-All first d (e ∷ ds) h = ground (arith, h.0, drop_before-All first d ds h.1)

drop_before-Ascending : (first : ℕ) (ds : List ℕ) → Ascending ds → Ascending (drop_before first ds)
unfolding drop_before
drop_before-Ascending first [] up = tt
drop_before-Ascending first (d ∷ ds) up =
    ground (arith, drop_before-All first d ds up.0, drop_before-Ascending first ds up.1)

abbrev last_of : {A : Type 0} → A → List A → A
last_of x [] = x
last_of x (y ∷ ys) = last y ys

le_last : (d y : ℕ) (ys : List ℕ) → d ≤ y → All (λ e. d ≤ e) ys → d ≤ last y ys
le_last d y [] h a = h
le_last d y (z ∷ ys) h a = le_last d z ys a.0 a.1

module _ {F : Type 0} ⦃f : Float F⦄ where
  -- How a loop over dates that are not none ends
  record IsReplay (date : ℕ) (dates : List ℕ) (ts : List (Trade F)) (b : Book F)
      (r : Reconstruction F) : Type 0 where
    used : List (Trade F)
    rest : List (Trade F)
    first_cash : F
    cashes : List F
    dates_same : r.dates ≡ date ∷ dates
    cash_same : r.cash ≡ first_cash ∷ cashes
    cut : IsCut (last date dates) ts used rest
    state : apply_all used b ≡ record { cash = last first_cash cashes; holdings = r.holdings }

  drawn_lem :
      (date : ℕ) (cash : F) (equity : Option F) (o : Replayed F) (r : Reconstruction F)
      → draw_if date cash equity o ≡ replayed r
      → (r0 : Reconstruction F) × ((o ≡ replayed r0)
          × ((r.dates ≡ date ∷ r0.dates)
              × ((r.cash ≡ cash ∷ r0.cash) × (r.holdings ≡ r0.holdings))))
  drawn_lem date cash none o r e = cc e
  drawn_lem date cash (some equity) missing_close r e = cc e
  drawn_lem date cash (some equity) (replayed r0) r e =
      let drawn : Reconstruction F = record r0 {
        dates = date ∷ r0.dates;
        equity = equity ∷ r0.equity;
        cash = cash ∷ r0.cash;
      } in
      let same : drawn ≡ r = cc e in
      (
        r0,
        (
          refl,
          (
            ap (λ x. x.dates) (sym same),
            (ap (λ x. x.cash) (sym same), ap (λ x. x.holdings) (sym same)),
          ),
        ),
      )

  widen-IsCut :
      (d l : ℕ) (ts used : List (Trade F))
      → d ≤ l
      → All (λ t. day t.executed_at ≤ d) used
      → All (λ t. day t.executed_at ≤ l) used
  widen-IsCut d l ts [] h a = tt
  widen-IsCut d l ts (t ∷ used) h a = (omega (arith, h, a.0), widen-IsCut d l ts used h a.1)

  append-Before :
      (d : ℕ) (xs ys : List (Trade F))
      → All (λ t. day t.executed_at ≤ d) xs
      → All (λ t. day t.executed_at ≤ d) ys
      → All (λ t. day t.executed_at ≤ d) (xs ++ ys)
  append-Before d [] ys a b = b
  append-Before d (x ∷ xs) ys a b = (a.0, append-Before d xs ys a.1 b)

  append_assoc : (xs ys zs : List (Trade F)) → (xs ++ ys) ++ zs ≡ xs ++ (ys ++ zs)
  append_assoc [] ys zs = refl
  append_assoc (x ∷ xs) ys zs = ap (λ rest. x ∷ rest) (append_assoc xs ys zs)

  replay_dates-IsReplay :
      (closes : Map Text (Map ℕ (ℕ × F))) (date : ℕ) (dates : List ℕ) (ts : List (Trade F))
      (b : Book F) (r : Reconstruction F)
      → Ascending (date ∷ dates)
      → InOrder day_before ts
      → replay_dates closes (date ∷ dates) ts b ≡ replayed r
      → IsReplay date dates ts b r
  unfolding replay_dates
  replay_dates-IsReplay closes date [] ts b r up order e =
      let o = apply_due date ts b in
      let (state, (cut, order')) = apply_due-Took date ts b order in
      let value = value_holdings closes date o.0.holdings (sorted_symbols o.0.holdings) o.0.cash in
      let end : Reconstruction F = record {
        dates = [];
        equity = [];
        cash = [];
        holdings = o.0.holdings;
      } in
      let (r0, (ended, (dates_same, (cash_same, holdings_same)))) =
        drawn_lem date o.0.cash value (replayed end) r e in
      let is : end ≡ r0 = cc ended in
      let kept : o.0.holdings ≡ r.holdings = ap (λ x. x.holdings) is ∙ sym holdings_same in
      record {
        used = due date ts;
        rest = o.1;
        first_cash = o.0.cash;
        cashes = [];
        dates_same = dates_same ∙ ap (λ x. date ∷ x.dates) (sym is);
        cash_same = cash_same ∙ ap (λ x. o.0.cash ∷ x.cash) (sym is);
        cut = cut;
        state = sym state ∙ ap (λ h. record { cash = o.0.cash; holdings = h }) kept;
      }
  replay_dates-IsReplay closes date (next ∷ dates) ts b r up order e =
      let o = apply_due date ts b in
      let (state, (cut, order')) = apply_due-Took date ts b order in
      let value = value_holdings closes date o.0.holdings (sorted_symbols o.0.holdings) o.0.cash in
      let (r0, (went_on, (dates_same, (cash_same, holdings_same)))) =
        drawn_lem date o.0.cash value (replay_dates closes (next ∷ dates) o.1 o.0) r e in
      let ih = replay_dates-IsReplay closes next dates o.1 o.0 r0 up.1 order' went_on in
      let least = le_last date next dates up.0.0 up.0.1 in
      let wide = widen-IsCut date (last next dates) ts (due date ts) least cut.before in
      record {
        used = due date ts ++ ih.used;
        rest = ih.rest;
        first_cash = o.0.cash;
        cashes = ih.first_cash ∷ ih.cashes;
        dates_same = dates_same ∙ ap (λ ds. date ∷ ds) ih.dates_same;
        cash_same = cash_same ∙ ap (λ cs. o.0.cash ∷ cs) ih.cash_same;
        cut = record {
          parts =
              append_assoc (due date ts) ih.used ih.rest
              ∙ ap (λ xs. due date ts ++ xs) ih.cut.parts
              ∙ cut.parts;
          before = append-Before (last next dates) (due date ts) ih.used wide ih.cut.before;
          behind = ih.cut.behind;
        };
        state =
            apply_all-append (due date ts) ih.used b
            ∙ ap (apply_all ih.used) (sym state)
            ∙ ih.state
            ∙ ap (λ h. record { cash = last ih.first_cash ih.cashes; holdings = h })
                (sym holdings_same);
      }

  -- The state at the last date, carried on by the trades behind it
  abbrev pub Once : List (Trade F) → Book F → Type 0
  Once trades b =
      (applied : List (Trade F)) × (SameRows applied trades × (b ≡ apply_all applied opening))

  IsReplay-Once :
      (date : ℕ) (dates : List ℕ) (ordered trades : List (Trade F)) (r : Reconstruction F)
      → SameRows ordered trades
      → (p : IsReplay date dates ordered opening r)
      → Once trades (project_past_calendar (last date dates) (last p.first_cash p.cashes) r trades)
  unfolding project_past_calendar
  IsReplay-Once date dates ordered trades r same p =
      let l = last date dates in
      let late = after_date l trades in
      (
        p.used ++ late,
        (
          cut-SameRows l trades ordered p.used p.rest same p.cut,
          apply_after_lem l trades
                (record { cash = last p.first_cash p.cashes; holdings = r.holdings })
              ∙ ap (apply_all late) (sym p.state)
              ∙ sym (apply_all-append p.used late opening),
        ),
      )

  replay_dates-Once :
      (closes : Map Text (Map ℕ (ℕ × F))) (all : List ℕ) (ordered trades : List (Trade F))
      (r : Reconstruction F) (d : ℕ) (ds : List ℕ) (c : F) (cs : List F)
      → Ascending all
      → InOrder day_before ordered
      → SameRows ordered trades
      → replay_dates closes all ordered opening ≡ replayed r
      → r.dates ≡ d ∷ ds
      → r.cash ≡ c ∷ cs
      → Once trades (project_past_calendar (last d ds) (last c cs) r trades)
  unfolding replay_dates
  replay_dates-Once closes [] ordered trades r d ds c cs up order same e dates cash =
      let end : Reconstruction F = record {
        dates = [];
        equity = [];
        cash = [];
        holdings = opening.holdings;
      } in
      let is : end ≡ r = cc e in cc (ap (λ x. x.dates) is ∙ dates)
  replay_dates-Once closes (date ∷ all) ordered trades r d ds c cs up order same e dates cash =
      let p = replay_dates-IsReplay closes date all ordered opening r up order e in
      let days = sym p.dates_same ∙ dates in
      let sums = sym p.cash_same ∙ cash in
      let proved = IsReplay-Once date all ordered trades r same p in
      let at_day =
        subst (λ l. Once trades (project_past_calendar l (last p.first_cash p.cashes) r trades))
          (ap (last_of 0) days) proved in
      subst (λ s. Once trades (project_past_calendar (last d ds) s r trades)) (ap (last_of c) sums)
        at_day

  day_before_asym : (s t : Trade F) → day_before s t ≡ true → day_before t s ≡ false
  day_before_asym s t h = ground arith

  -- Each trade counts exactly once. Where a replay over an ascending calendar succeeds and has at least
  -- one date, the state that the guard compares with the live account, which is the replay at its last
  -- date carried on by the trades behind that date, is what the opening balance becomes by applying all
  -- the trades of the log one after the other, in some order: none is dropped between the two folds or
  -- applied by both, whatever dates the calendar lacks.
  pub reconstruct-Once :
      (trades : List (Trade F)) (bars : Map Text (List (Bar F))) (calendar : List ℕ)
      (r : Reconstruction F) (d : ℕ) (ds : List ℕ) (c : F) (cs : List F)
      → Ascending calendar
      → reconstruct trades bars calendar ≡ replayed r
      → r.dates ≡ d ∷ ds
      → r.cash ≡ c ∷ cs
      → (applied : List (Trade F)) × (SameRows applied trades
          × (project_past_calendar (last d ds) (last c cs) r trades ≡ apply_all applied opening))
  unfolding reconstruct
  reconstruct-Once [] bars calendar r d ds c cs up e dates cash =
      let is : no_history ≡ r = cc e in cc (is, dates)
  reconstruct-Once (t ∷ ts) bars [] r d ds c cs up e dates cash =
      let is : no_history ≡ r = cc e in cc (is, dates)
  reconstruct-Once (t ∷ ts) bars (date ∷ calendar) r d ds c cs up e dates cash =
      let ordered = order_by day_before (t ∷ ts) in
      let first = first_day ordered in
      replay_dates-Once (closes_by_symbol_and_day bars) (drop_before first (date ∷ calendar))
        ordered (t ∷ ts) r d ds c cs (drop_before-Ascending first (date ∷ calendar) up)
        (order_by-InOrder day_before day_before_asym (t ∷ ts))
        (order_by-SameRows day_before (t ∷ ts)) e dates cash

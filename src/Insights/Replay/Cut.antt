-- ===== src/Insights/Replay/Cut.antt =====
-- A log of trades, cut at a date.
use quantsim.Prelude.{
  ℕ, ◌+◌, ◌≤◌, ◌<◌, ◌≡◌, refl, ap, inl, inr, Bool, false, Bool-cases, List, [], ◌∷◌, ◌++◌, leb,
  leb→le, All, arith, if◌then◌else◌,
}
use quantsim.Prelude.Float.{Float}
use quantsim.Trading.Listing.Sorting.{tally, SameRows, InOrder}
use quantsim.Insights.Types.{Trade, day}
use quantsim.Insights.Replay.{Book, day_before, apply_trade, apply_due}
use quantsim.Insights.Reconcile.{apply_after}

module _ {F : Type 0} ⦃f : Float F⦄ where
  -- The trades applied one after the other
  unfoldable pub apply_all : List (Trade F) → Book F → Book F
  apply_all [] b = b
  apply_all (t ∷ ts) b = apply_all ts (apply_trade t b)

  -- The trades that are due after a date
  abbrev pub after_date : ℕ → List (Trade F) → List (Trade F)
  after_date date [] = []
  after_date date (t ∷ ts) =
      let rest = after_date date ts in if leb (day t.executed_at) date then rest else t ∷ rest

  pub apply_all-append :
      (xs ys : List (Trade F)) (b : Book F) → apply_all (xs ++ ys) b ≡ apply_all ys (apply_all xs b)
  unfolding apply_all
  apply_all-append [] ys b = refl
  apply_all-append (x ∷ xs) ys b = apply_all-append xs ys (apply_trade x b)

  pub apply_after_lem :
      (as_of : ℕ) (ts : List (Trade F)) (b : Book F)
      → apply_after as_of ts b ≡ apply_all (after_date as_of ts) b
  unfolding apply_after apply_all
  apply_after_lem as_of [] b = refl
  apply_after_lem as_of (t ∷ ts) b = elim (Bool-cases (leb (day t.executed_at) as_of)) [
    | inl old ↦ rw old (apply_after_lem as_of ts b)
    | inr new ↦ rw new (apply_after_lem as_of ts (apply_trade t b))
  ]

  -- How a list of trades was cut at a date
  pub record IsCut (date : ℕ) (ts used rest : List (Trade F)) : Type 0 where
    pub parts : used ++ rest ≡ ts
    pub before : All (λ t. day t.executed_at ≤ date) used
    pub behind : All (λ t. date < day t.executed_at) rest

  behind_lem :
      (date : ℕ) (t : Trade F) (ts : List (Trade F))
      → date < day t.executed_at
      → InOrder day_before (t ∷ ts)
      → All (λ t. date < day t.executed_at) (t ∷ ts)
  behind_lem date t [] h o = (h, tt)
  behind_lem date t (s ∷ ts) h o =
      let later : date < day s.executed_at = ground (arith, o.0) in
      (h, behind_lem date s ts later o.1)

  tail-InOrder :
      (t : Trade F) (ts : List (Trade F)) → InOrder day_before (t ∷ ts) → InOrder day_before ts
  tail-InOrder t [] o = tt
  tail-InOrder t (s ∷ ts) o = o.1

  -- The trades that the inner loop takes
  abbrev pub due : ℕ → List (Trade F) → List (Trade F)
  due date [] = []
  due date (t ∷ ts) =
      let rest = due date ts in if leb (day t.executed_at) date then t ∷ rest else []

  abbrev pub Took : ℕ → List (Trade F) → Book F → Book F × List (Trade F) → Type 0
  Took date ts b o =
      (o.0 ≡ apply_all (due date ts) b) × (IsCut date ts (due date ts) o.1 × InOrder day_before o.1)

  pub apply_due-Took :
      (date : ℕ) (ts : List (Trade F)) (b : Book F)
      → InOrder day_before ts
      → Took date ts b (apply_due date ts b)
  unfolding apply_due apply_all
  apply_due-Took date [] b o = (refl, (record { parts = refl; before = tt; behind = tt }, tt))
  apply_due-Took date (t ∷ ts) b o = elim (Bool-cases (leb (day t.executed_at) date)) [
    | inl now ↦
        let (same, (cut, order)) = apply_due-Took date ts (apply_trade t b) (tail-InOrder t ts o) in
        rw now (
          same,
          (
            record {
              parts = ap (λ rest. t ∷ rest) cut.parts;
              before = (leb→le (day t.executed_at) date now, cut.before);
              behind = cut.behind;
            },
            order,
          ),
        )
    | inr later ↦ rw later (
      refl,
      (record { parts = refl; before = tt; behind = behind_lem date t ts (ground arith) o }, o),
    )
  ]

  tally-append :
      (p : Trade F → Bool) (xs ys : List (Trade F)) → tally p (xs ++ ys) ≡ tally p xs + tally p ys
  tally-append p [] ys = omega arith
  tally-append p (x ∷ xs) ys = omega (arith, tally-append p xs ys)

  abbrev past : ℕ → (Trade F → Bool) → Trade F → Bool
  past date p t = if leb (day t.executed_at) date then false else p t

  tally-after_date :
      (date : ℕ) (p : Trade F → Bool) (xs : List (Trade F))
      → tally p (after_date date xs) ≡ tally (past date p) xs
  tally-after_date date p [] = refl
  tally-after_date date p (x ∷ xs) = ground (arith, tally-after_date date p xs)

  tally-before :
      (date : ℕ) (p : Trade F → Bool) (xs : List (Trade F))
      → All (λ t. day t.executed_at ≤ date) xs
      → tally (past date p) xs ≡ 0
  tally-before date p [] h = refl
  tally-before date p (x ∷ xs) h = ground (arith, h.0, tally-before date p xs h.1)

  tally-behind :
      (date : ℕ) (p : Trade F → Bool) (xs : List (Trade F))
      → All (λ t. date < day t.executed_at) xs
      → tally (past date p) xs ≡ tally p xs
  tally-behind date p [] h = refl
  tally-behind date p (x ∷ xs) h = ground (arith, h.0, tally-behind date p xs h.1)

  -- What was used up to a date, and the trades after it in any order, are all the trades.
  pub cut-SameRows :
      (date : ℕ) (trades ordered used rest : List (Trade F))
      → SameRows ordered trades
      → IsCut date ordered used rest
      → SameRows (used ++ after_date date trades) trades
  cut-SameRows date trades ordered used rest same cut p =
      let q = past date p in
      let parts = ap (tally p) cut.parts in
      let parts' = ap (tally q) cut.parts in
      omega (
        arith,
        tally-append p used (after_date date trades),
        tally-after_date date p trades,
        same p,
        same q,
        parts,
        parts',
        tally-append p used rest,
        tally-append q used rest,
        tally-before date p used cut.before,
        tally-behind date p rest cut.behind,
      )

-- ===== src/Limiter/Backoff/Burst.antt =====
-- A burst of attempts on one account, among attempts on others, with no verdict in between: what
-- concurrent guessing can get past the backoff.
use native.Mathlib.Decide.{dec_le}
use quantsim.Prelude.{
  ℕ, suc, ◌+◌, ◌^◌, ◌≤◌, ◌<◌, min, ◌≡◌, ◌≢◌, refl, ap, ◌∙◌, inl, inr, true, false, Option, none,
  some, List, [], ◌∷◌, arith, String, if◌then◌else◌, Bool-cases, All, leb,
}
use quantsim.Prelude.Int.{pos}
use quantsim.Prelude.Keys.{string_keys, str_eq, str_eq_iff}
use quantsim.Prelude.Map.{lookup}
use quantsim.Limiter.Backoff.{BackoffConfig, Entry, Table, delay, stale, throttled, attempt}
use quantsim.Limiter.Backoff.Schedule.{schedule, delay_free, delay_closed}
use quantsim.Limiter.Backoff.Window.{isolation}
use quantsim.Limiter.Backoff.Sweep.{outcome, attempt-outcome}

-- Attempts, each of an account at an instant, in the order in which they take the lock.
abbrev pub Attempts : Type 0
Attempts = List (String × ℕ)

-- How many attempts on this account are let through.
pub passed : BackoffConfig → String → Attempts → Table → ℕ
passed cfg key [] m = 0
passed cfg key ((k, now) ∷ rest) m =
    let (r, m') = attempt cfg now k m in
    let later = passed cfg key rest m' in
    if str_eq k key then (if r.is_allowed then suc later else later) else later

-- How many attempts on this account there are.
pub asked : String → Attempts → ℕ
asked key [] = 0
asked key ((k, now) ∷ rest) = (if str_eq k key then 1 else 0) + asked key rest

abbrev pub Within : ℕ → ℕ → String × ℕ → Type 0
Within t b (k, now) = (t ≤ now) × (now < t + b)

module _ (free b m t : ℕ) (pb : 0 < b) (bm : b ≤ m) (small : m < 2 ^ 62) where
  -- n attempts of the burst have been counted so far.
  abbrev Counted : ℕ → Option Entry → Type 0
  Counted n none = n ≡ 0
  Counted n (some a) = (0 < n) × (a.failures ≡ n) × (t ≤ a.last_failure) × (a.last_failure < t + b)

  under_allowance :
      (n now : ℕ) (o : Option Entry)
      → Counted n o
      → n ≤ free
      → t ≤ now
      → now < t + b
      → ((outcome (schedule free b m) now o).0.is_allowed ≡ true)
        × Counted (suc n) (outcome (schedule free b m) now o).1
  unfolding throttled stale
  under_allowance n now none c le l h = ground arith
  under_allowance n now (some a) c le l h =
      ground (arith, delay_free a.failures (schedule free b m))

  over_allowance :
      (now : ℕ) (o : Option Entry)
      → Counted (suc free) o
      → t ≤ now
      → now < t + b
      → ((outcome (schedule free b m) now o).0.is_allowed ≡ false)
        × ((outcome (schedule free b m) now o).1 ≡ o)
  unfolding throttled stale
  over_allowance now none c l h = absurd (omega arith)
  over_allowance now (some a) c l h =
      let wait : delay (free + 1) (schedule free b m) ≡ pos b =
        delay_closed free b m 0 small ∙ ap pos (omega arith) in
      let count : a.failures ≡ free + 1 = omega arith in
      let wait' : delay a.failures (schedule free b m) ≡ pos b = rw count wait in ground arith

  -- One attempt on the account itself.
  Counted-step :
      (n now : ℕ) (key : String) (table : Table)
      → n ≤ suc free
      → Counted n (lookup key table)
      → t ≤ now
      → now < t + b
      → let (r, table') = attempt (schedule free b m) now key table in
        (r.is_allowed ≡ leb n free) × Counted (if leb n free then suc n else n) (lookup key table')
  Counted-step n now key table le c l h =
      let step = attempt-outcome (schedule free b m) now key table in
      let answer = ap (λ p. p.0.is_allowed) step in
      let entry = ap (λ p. p.1) step in
      elim (dec_le n free) [
        | yes under ↦
            let test : leb n free ≡ true = ground arith in
            let (ok, more) = under_allowance n now (lookup key table) c under l h in
            rw test (answer ∙ ok, rw entry more)
        | no over ↦
            let test : leb n free ≡ false = ground arith in
            let full : n ≡ suc free = omega arith in
            let (ok, same) = over_allowance now (lookup key table) (rw full at c) l h in
            rw test (answer ∙ ok, rw entry (rw same c))
      ]

  -- With n counted already, a burst lets through what is left of the allowance.
  passed_from :
      (n : ℕ) (key : String) (rs : Attempts) (table : Table)
      → n ≤ suc free
      → Counted n (lookup key table)
      → All (Within t b) rs
      → n + passed (schedule free b m) key rs table ≡ min (n + asked key rs) (suc free)
  unfolding passed asked
  passed_from n key [] table le c w = omega arith
  passed_from n key ((k, now) ∷ rest) table le c (within, ws) = elim (Bool-cases (str_eq k key)) [
    | inl same ↦
        let e : k ≡ key = (str_eq_iff k key).0 same in
        let (answer, next) = Counted-step n now key table le c within.0 within.1 in
        let table' = (attempt (schedule free b m) now key table).1 in
        elim (Bool-cases (leb n free)) [
          | inl under ↦
              let ih = passed_from (suc n) key rest table' (ground arith) (rw under at next) ws in
              rw same (rw e (rw answer (rw under (omega (arith, ih)))))
          | inr over ↦
              let ih = passed_from n key rest table' le (rw over at next) ws in
              let full : n ≡ suc free = ground arith in
              rw same (rw e (rw answer (rw over (omega (arith, ih)))))
        ]
    | inr other ↦
        let apart : k ≢ key = λ e. cc ((str_eq_iff k key).1 e) in
        let same = (isolation (schedule free b m) now k key table apart).0 in
        let table' = (attempt (schedule free b m) now k table).1 in
        let ih = passed_from n key rest table' le (rw same c) ws in rw other (omega (arith, ih))
  ]

-- Concurrent guessing is bounded by the allowance: of the attempts on an account without a history
-- that arrive within one base delay of one another, with no verdict on any of them yet and among
-- any attempts on other accounts, exactly the first `free_failures + 1` are let through, for a base
-- delay above zero and a cap that is at least the base delay and below 2^62 ns.
pub burst_bounded :
    (free b m t : ℕ) (key : String) (rs : Attempts) (table : Table)
    → 0 < b
    → b ≤ m
    → m < 2 ^ 62
    → lookup key table ≡ none
    → All (Within t b) rs
    → passed (schedule free b m) key rs table ≡ min (asked key rs) (free + 1)
burst_bounded free b m t key rs table pb bm small new w =
    let count = passed_from free b m t pb bm small 0 key rs table (omega arith) (rw new refl) w in
    omega (arith, count)

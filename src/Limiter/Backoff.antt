-- ===== src/Limiter/Backoff.antt =====
-- The backoff over consecutive failed logins of one account
-- (services/gateway/internal/limiter/backoff.go). The clock is read by each call, so it is an
-- argument; a call holds the one lock for its whole body, so it is a function of the table.
pub mod Schedule
pub mod Window
pub mod Attempts
pub mod Sweep
pub mod Burst
pub mod Counted
mod Tests
use quantsim.Prelude.{
  ℕ, zero, suc, ◌+◌, ◌-◌, Bool, true, false, not, Option, none, some, String, if◌then◌else◌, ltb,
  leb, ◌==◌, length,
}
use quantsim.Prelude.Int.{ℤ, pos, sub_ℕ, ◌+ℤ◌, ◌-ℤ◌, ltb_ℤ, leb_ℤ, wrap64}
use quantsim.Prelude.Keys.{string_keys}
use quantsim.Prelude.Map.{Map, lookup, insert, erase, retain}
use quantsim.Limiter.Answer.{Result, allowed, refused}

pub record BackoffConfig : Type 0 where
  pub free_failures : ℕ
  pub base_delay : ℤ
  pub max_delay : ℤ

-- The loop of `Delay` with the rounds that are left: `d *= 2` in 64 bits until the cap is reached.
double_up : ℕ → ℤ → ℤ → ℤ
double_up zero limit d = d
double_up (suc rounds) limit d =
    let rest = double_up rounds limit (wrap64 (d +ℤ d)) in if leb_ℤ limit d then d else rest

-- The last `if` of `Delay`.
cap_at : ℤ → ℤ → ℤ
cap_at limit d = if ltb_ℤ limit d then limit else d

pub delay : ℕ → BackoffConfig → ℤ
unfolding double_up cap_at
delay failures cfg =
    let excess = failures - cfg.free_failures in
    if excess == 0
    then pos 0
    else cap_at cfg.max_delay (double_up (excess - 1) cfg.max_delay cfg.base_delay)

-- `attempt`: one key's consecutive failures, and when the last one was.
pub record Entry : Type 0 where
  pub failures : ℕ
  pub last_failure : ℕ

abbrev pub Table : Type 0
Table = Map String Entry

-- `now.Sub(a.lastFailure)`
abbrev pub elapsed : Entry → ℕ → ℤ
elapsed a now = sub_ℕ now a.last_failure

pub stale : BackoffConfig → Entry → ℕ → Bool
stale cfg a now = leb_ℤ cfg.max_delay (elapsed a now)

abbrev pub first_failure : ℕ → Entry
first_failure now = record { failures = 1; last_failure = now }

abbrev pub one_more : Entry → ℕ → Entry
one_more a now = record { failures = a.failures + 1; last_failure = now }

-- Inside the window of this entry: the two nested tests of `Attempt`.
pub throttled : BackoffConfig → Entry → ℕ → Bool
throttled cfg a now =
    let wait = delay a.failures cfg in
    if ltb_ℤ (pos 0) wait then ltb_ℤ (elapsed a now) wait else false

-- `Attempt` after the look-up found an entry.
pub attempt_known : BackoffConfig → ℕ → String → Entry → Table → Result × Table
unfolding throttled stale
attempt_known cfg now key a m =
    if stale cfg a now
    then (allowed, insert key (first_failure now) m)
    else if throttled cfg a now
    then (refused (delay a.failures cfg -ℤ elapsed a now), m)
    else (allowed, insert key (one_more a now) m)

unfoldable pub attempt : BackoffConfig → ℕ → String → Table → Result × Table
unfolding attempt_known
attempt cfg now key m = elim (lookup key m) [
  | none ↦ (allowed, insert key (first_failure now) m)
  | some a ↦ attempt_known cfg now key a m
]

pub succeed : String → Table → Table
succeed key m = erase key m

-- `Undo` after the look-up found an entry.
pub undo_known : String → Entry → Table → Table
undo_known key a m =
    if leb (a.failures - 1) 0
    then erase key m
    else insert key (record a { failures = a.failures - 1 }) m

pub undo : String → Table → Table
unfolding undo_known
undo key m = elim (lookup key m) [ none ↦ m | some a ↦ undo_known key a m ]

pub evict_stale : BackoffConfig → ℕ → Table → Table
evict_stale cfg now m = retain (λ a. not (stale cfg a now)) m

-- `Len`
pub tracked : Table → ℕ
tracked m = length m

-- ===== src/Limiter/Backoff/Sweep.antt =====
-- The sweeper, and what an undone attempt leaves behind.
use quantsim.Prelude.{
  ℕ, ◌+◌, ◌≤◌, ◌<◌, ◌≡◌, refl, sym, ap, ◌∙◌, inl, inr, true, false, not, Option, none, some, arith,
  String, if◌then◌else◌, Option-cases,
}
use quantsim.Prelude.Int.{pos, ◌-ℤ◌}
use quantsim.Prelude.Keys.{string_keys}
use quantsim.Prelude.Map.{lookup, kept, lookup-retain, lookup-insert_self}
use quantsim.Limiter.Answer.{Result, allowed, refused}
use quantsim.Limiter.Backoff.{
  BackoffConfig, Entry, Table, first_failure, one_more, delay, stale, throttled, elapsed, attempt,
  attempt_known, evict_stale, undo,
}
use quantsim.Limiter.Backoff.Window.{delay-le-max, attempt_of_known, attempt_of_new}
use quantsim.Limiter.Backoff.Attempts.{IsValid, undo-attempt}

-- What an attempt does to its own account, read from the account's entry alone.
abbrev pub outcome : BackoffConfig → ℕ → Option Entry → Result × Option Entry
outcome cfg now none = (allowed, some (first_failure now))
outcome cfg now (some a) =
    if stale cfg a now
    then (allowed, some (first_failure now))
    else if throttled cfg a now
    then (refused (delay a.failures cfg -ℤ elapsed a now), some a)
    else (allowed, some (one_more a now))

known-outcome :
    (cfg : BackoffConfig) (now : ℕ) (key : String) (a : Entry) (m : Table)
    → lookup key m ≡ some a
    → let (r, m') = attempt_known cfg now key a m in
      ◌≡◌ {A = Result × Option Entry} (r, lookup key m') (outcome cfg now (some a))
unfolding attempt_known
known-outcome cfg now key a m e =
    ground (
      arith,
      lookup-insert_self key (first_failure now) m,
      lookup-insert_self key (one_more a now) m,
    )

pub attempt-outcome :
    (cfg : BackoffConfig) (now : ℕ) (key : String) (m : Table)
    → let (r, m') = attempt cfg now key m in
      ◌≡◌ {A = Result × Option Entry} (r, lookup key m') (outcome cfg now (lookup key m))
attempt-outcome cfg now key m = elim (Option-cases (lookup key m)) [
  | inl e ↦
      rw (attempt_of_new cfg now key m e, e)
        (λ i. (allowed, lookup-insert_self key (first_failure now) m i))
  | inr (a, e) ↦ rw (attempt_of_known cfg now key m a e, e) (known-outcome cfg now key a m e)
]

outcome-kept :
    (cfg : BackoffConfig) (now later : ℕ) (o : Option Entry)
    → now ≤ later
    → outcome cfg later (kept (λ b. not (stale cfg b now)) o) ≡ outcome cfg later o
unfolding stale
outcome-kept cfg now later none le = refl
outcome-kept cfg now later (some a) le = ground arith

-- In a well-formed table a sweep is invisible: from then on every attempt is answered as if the sweep had not happened,
-- and leaves the account with the same entry. So no sweep ends a throttle that is active.
pub evict_invisible :
    (cfg : BackoffConfig) (now later : ℕ) (key : String) (m : Table)
    → IsValid m
    → now ≤ later
    → let swept = evict_stale cfg now m in
      ((attempt cfg later key swept).0 ≡ (attempt cfg later key m).0)
      × (lookup key (attempt cfg later key swept).1 ≡ lookup key (attempt cfg later key m).1)
unfolding evict_stale
evict_invisible cfg now later key m v le =
    let after = attempt-outcome cfg later key (evict_stale cfg now m) in
    let before = attempt-outcome cfg later key m in
    let same : outcome cfg later (lookup key (evict_stale cfg now m))
        ≡ outcome cfg later (lookup key m) =
      rw (lookup-retain key (λ b. not (stale cfg b now)) m v.0)
        (outcome-kept cfg now later (lookup key m) le) in
    let both = after ∙ same ∙ sym before in (ap (λ p. p.0) both, ap (λ p. p.1) both)

restarted-outcome :
    (cfg : BackoffConfig) (now later d : ℕ) (a : Entry)
    → delay a.failures cfg ≡ pos d
    → now ≤ later
    → later < now + d
    → (outcome cfg later (some (record a { last_failure = now }))).0.is_allowed ≡ false
unfolding stale throttled
restarted-outcome cfg now later d a e le lt = ground (arith, delay-le-max a.failures cfg)

-- An undone attempt restarts the wait: where an account, whose entry in a well-formed table has not
-- aged out, has waited out its delay, and the next
-- attempt ends in an upstream failure that is undone, every attempt within one more full delay is
-- refused, although no further password was wrong.
pub undo_restarts_wait :
    (cfg : BackoffConfig) (now later d : ℕ) (key : String) (a : Entry) (m : Table)
    → IsValid m
    → lookup key m ≡ some a
    → stale cfg a now ≡ false
    → (attempt cfg now key m).0.is_allowed ≡ true
    → delay a.failures cfg ≡ pos d
    → now ≤ later
    → later < now + d
    → (attempt cfg later key (undo key (attempt cfg now key m).1)).0.is_allowed ≡ false
undo_restarts_wait cfg now later d key a m v e live ok wait le lt =
    let undone = undo key (attempt cfg now key m).1 in
    let entry : lookup key undone ≡ some (record a { last_failure = now }) =
      undo-attempt cfg now key m (v.1 key) ok ∙ rw e (rw live) in
    ap (λ p. p.0.is_allowed) (attempt-outcome cfg later key undone)
    ∙ rw entry (restarted-outcome cfg now later d a wait le lt)

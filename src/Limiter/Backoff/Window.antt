-- ===== src/Limiter/Backoff/Window.antt =====
-- One account's window: when a refusal ends, and that the accounts do not touch one another.
use quantsim.Prelude.{
  ℕ, ◌+◌, ◌-◌, ◌≤◌, ◌≡◌, ◌↔◌, ◌≢◌, inl, inr, true, none, some, arith, String, Option-cases,
}
use quantsim.Prelude.Int.{ℤ, pos, ◌≤ℤ◌, ltb_ℤ, -ℤ_parts}
use quantsim.Prelude.Keys.{string_keys, beq_ne}
use quantsim.Prelude.Map.{lookup, insert, erase, lookup-insert, lookup-erase}
use quantsim.Limiter.Answer.{allowed, refused}
use quantsim.Limiter.Backoff.{
  BackoffConfig, Entry, Table, cap_at, delay, first_failure, one_more, elapsed, attempt, double_up,
  attempt_known, succeed, undo, undo_known,
}

cap_at-le : (limit d : ℤ) → cap_at limit d ≤ℤ limit
unfolding cap_at
cap_at-le limit d = ground arith

-- A window that is open is never longer than the idle time after which the entry is forgotten.
pub delay-le-max :
    (n : ℕ) (cfg : BackoffConfig)
    → ltb_ℤ (pos 0) (delay n cfg) ≡ true
    → delay n cfg ≤ℤ cfg.max_delay
unfolding delay
delay-le-max n cfg h = ground (
  arith,
  cap_at-le cfg.max_delay (double_up (n - cfg.free_failures - 1) cfg.max_delay cfg.base_delay),
)

-- The two cases of the look-up.
pub attempt_of_known :
    (cfg : BackoffConfig) (now : ℕ) (key : String) (m : Table) (a : Entry)
    → lookup key m ≡ some a
    → attempt cfg now key m ≡ attempt_known cfg now key a m
unfolding attempt
attempt_of_known cfg now key m a e = rw (e, attempt)

pub attempt_of_new :
    (cfg : BackoffConfig) (now : ℕ) (key : String) (m : Table)
    → lookup key m ≡ none
    → attempt cfg now key m ≡ (allowed, insert key (first_failure now) m)
unfolding attempt
attempt_of_new cfg now key m e = rw (e, attempt)

-- The same for one entry.
known_retry :
    (cfg : BackoffConfig) (now later k : ℕ) (key : String) (a : Entry) (m : Table)
    → (attempt_known cfg now key a m).0 ≡ refused (pos k)
    → now ≤ later
    → ((attempt_known cfg later key a m).0.is_allowed ≡ true) ↔ (now + k ≤ later)
unfolding attempt_known
known_retry cfg now later k key a m r le =
    ground (arith, delay-le-max a.failures cfg, -ℤ_parts (delay a.failures cfg) (elapsed a now))

-- The `RetryAfter` of a refusal is exact: with no other call on the account, an attempt at a later
-- instant is admitted if and only if that much time has passed.
pub retry_exact :
    (cfg : BackoffConfig) (now later k : ℕ) (key : String) (m : Table)
    → (attempt cfg now key m).0 ≡ refused (pos k)
    → now ≤ later
    → ((attempt cfg later key m).0.is_allowed ≡ true) ↔ (now + k ≤ later)
unfolding attempt
retry_exact cfg now later k key m r le = elim (Option-cases (lookup key m)) [
  | inl e ↦ ground arith
  | inr (a, e) ↦
      let step = attempt_of_known cfg later key m a e in
      let before = attempt_of_known cfg now key m a e in
      rw step (known_retry cfg now later k key a m (rw before at r) le)
]

pub insert_apart :
    (key other : String) (a : Entry) (m : Table)
    → key ≢ other
    → lookup other (insert key a m) ≡ lookup other m
insert_apart key other a m ne = rw lookup-insert (rw (beq_ne key other ne))

erase_apart :
    (key other : String) (m : Table) → key ≢ other → lookup other (erase key m) ≡ lookup other m
erase_apart key other m ne = rw lookup-erase (rw (beq_ne key other ne))

attempt_apart :
    (cfg : BackoffConfig) (now : ℕ) (key other : String) (m : Table)
    → key ≢ other
    → lookup other (attempt cfg now key m).1 ≡ lookup other m
unfolding attempt attempt_known
attempt_apart cfg now key other m ne = elim (Option-cases (lookup key m)) [
  | inl e ↦ rw (e, attempt) (insert_apart key other (first_failure now) m ne)
  | inr (a, e) ↦
      rw (e, attempt)
        (ground (
          arith,
          insert_apart key other (first_failure now) m ne,
          insert_apart key other (one_more a now) m ne,
        ))
]

undo_apart :
    (key other : String) (m : Table) → key ≢ other → lookup other (undo key m) ≡ lookup other m
unfolding undo undo_known
undo_apart key other m ne = elim (Option-cases (lookup key m)) [
  | inl e ↦ rw (e, undo)
  | inr (a, e) ↦
      rw (e, undo)
        (ground (
          arith,
          erase_apart key other m ne,
          insert_apart key other (record a { failures = a.failures - 1 }) m ne,
        ))
]

-- What one account does is invisible to every other: its attempts, its successes and its undone
-- attempts change no other account's entry.
pub isolation :
    (cfg : BackoffConfig) (now : ℕ) (key other : String) (m : Table)
    → key ≢ other
    → (lookup other (attempt cfg now key m).1 ≡ lookup other m)
      × (lookup other (succeed key m) ≡ lookup other m)
      × (lookup other (undo key m) ≡ lookup other m)
unfolding succeed
isolation cfg now key other m ne =
    (attempt_apart cfg now key other m ne, erase_apart key other m ne, undo_apart key other m ne)

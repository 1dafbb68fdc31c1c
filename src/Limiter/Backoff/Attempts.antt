-- ===== src/Limiter/Backoff/Attempts.antt =====
-- The optimistic count and how it is taken back: what `Undo` and `Succeed` restore.
use quantsim.Prelude.{
  ℕ, ◌+◌, ◌-◌, leb, ◌≤◌, ◌≡◌, inl, inr, true, false, Option, none, some, arith, String,
  if◌then◌else◌, Option-cases, Bool-cases, not,
}
use quantsim.Prelude.Keys.{string_keys}
use quantsim.Prelude.Map.{
  lookup, insert, erase, lookup-insert, lookup-insert_self, lookup-erase, lookup-erase_self, IsMap,
  lookup-retain, insert-IsMap, erase-IsMap, retain-IsMap,
}
use quantsim.Limiter.Backoff.{
  BackoffConfig, Entry, Table, first_failure, one_more, stale, throttled, attempt, attempt_known,
  evict_stale, succeed, undo, undo_known,
}
use quantsim.Limiter.Backoff.Window.{attempt_of_known, attempt_of_new}

-- What an entry is after an admitted attempt was taken back.
abbrev pub taken_back : BackoffConfig → ℕ → Option Entry → Option Entry
taken_back cfg now none = none
taken_back cfg now (some a) =
    if stale cfg a now then none else some (record a { last_failure = now })

undo_first :
    (key : String) (now : ℕ) (m : Table)
    → lookup key (undo key (insert key (first_failure now) m)) ≡ none
unfolding undo undo_known
undo_first key now m =
    rw (lookup-insert_self key (first_failure now) m, undo)
      (lookup-erase_self key (insert key (first_failure now) m))

undo_more :
    (key : String) (now : ℕ) (a : Entry) (m : Table)
    → 1 ≤ a.failures
    → lookup key (undo key (insert key (one_more a now) m)) ≡ some (record a { last_failure = now })
unfolding undo undo_known
undo_more key now a m h =
    let back : a.failures + 1 - 1 ≡ a.failures = omega arith in
    let live : leb a.failures 0 ≡ false = ground arith in
    rw (lookup-insert_self key (one_more a now) m, undo)
      (rw back (
        rw live (
          lookup-insert_self key (record a { last_failure = now })
            (insert key (one_more a now) m))))

undo_known_lem :
    (cfg : BackoffConfig) (now : ℕ) (key : String) (m : Table) (a : Entry)
    → 1 ≤ a.failures
    → (attempt_known cfg now key a m).0.is_allowed ≡ true
    → lookup key (undo key (attempt_known cfg now key a m).1) ≡ taken_back cfg now (some a)
unfolding attempt_known
undo_known_lem cfg now key m a counted ok =
    ground (arith, undo_first key now m, undo_more key now a m counted)

-- Where the account's entry counts at least one failure, if it has one, undoing an admitted attempt
-- gives back the count that the account had before it, but not the
-- instant of the last failure, which stays that of the undone attempt. An account with no history,
-- or with one that had aged out, has none again.
pub undo-attempt :
    (cfg : BackoffConfig) (now : ℕ) (key : String) (m : Table)
    → ((a : Entry) → lookup key m ≡ some a → 1 ≤ a.failures)
    → (attempt cfg now key m).0.is_allowed ≡ true
    → lookup key (undo key (attempt cfg now key m).1) ≡ taken_back cfg now (lookup key m)
undo-attempt cfg now key m counted ok = elim (Option-cases (lookup key m)) [
  | inl e ↦ rw (attempt_of_new cfg now key m e, e) (undo_first key now m)
  | inr (a, e) ↦
      rw (attempt_of_known cfg now key m a e, e)
        (undo_known_lem cfg now key m a (counted a e)
          (rw (attempt_of_known cfg now key m a e) at ok))
]

-- Every entry of the table stands for at least one failure.
abbrev pub IsCounting : Table → Type 0
IsCounting m = (key : String) (a : Entry) → lookup key m ≡ some a → 1 ≤ a.failures

pub insert-IsCounting :
    (key : String) (a : Entry) (m : Table)
    → 1 ≤ a.failures
    → IsCounting m
    → IsCounting (insert key a m)
insert-IsCounting key a m counted c j b e = grind (arith, lookup-insert j key a m, c j b)

erase-IsCounting : (key : String) (m : Table) → IsCounting m → IsCounting (erase key m)
erase-IsCounting key m c j b e = grind (arith, lookup-erase j key m, c j b)

attempt-IsCounting :
    (cfg : BackoffConfig) (now : ℕ) (key : String) (m : Table)
    → IsCounting m
    → IsCounting (attempt cfg now key m).1
unfolding attempt attempt_known
attempt-IsCounting cfg now key m c = elim (Option-cases (lookup key m)) [
  | inl e ↦ rw (e, attempt) (insert-IsCounting key (first_failure now) m (omega arith) c)
  | inr (a, e) ↦
      rw (e, attempt)
        (elim (Bool-cases (stale cfg a now)) [
          | inl old ↦ rw old (insert-IsCounting key (first_failure now) m (omega arith) c)
          | inr live ↦ elim (Bool-cases (throttled cfg a now)) [
            | inl shut ↦ rw live (rw shut c)
            | inr free ↦
                rw live (rw free (insert-IsCounting key (one_more a now) m (omega arith) c))
          ]
        ])
]

undo-IsCounting : (key : String) (m : Table) → IsCounting m → IsCounting (undo key m)
unfolding undo undo_known
undo-IsCounting key m c = elim (Option-cases (lookup key m)) [
  | inl e ↦ rw (e, undo) c
  | inr (a, e) ↦
      rw (e, undo)
        (elim (Bool-cases (leb (a.failures - 1) 0)) [
          | inl last ↦ rw last (erase-IsCounting key m c)
          | inr more ↦
              rw more
                (insert-IsCounting key (record a { failures = a.failures - 1 }) m (ground arith) c)
        ])
]

evict-IsCounting :
    (cfg : BackoffConfig) (now : ℕ) (m : Table)
    → IsMap m
    → IsCounting m
    → IsCounting (evict_stale cfg now m)
unfolding evict_stale
evict-IsCounting cfg now m u c key a e =
    grind (arith, lookup-retain key (λ b. not (stale cfg b now)) m u, c key a)

-- The calls of the backoff, as the middleware and the sweeper make them.
pub data Call : Type 0 where
  attempt_at : ℕ → String → Call
  succeed_of undo_of : String → Call
  evict_at : ℕ → Call

unfoldable pub apply : BackoffConfig → Call → Table → Table
apply cfg (attempt_at now key) m = (attempt cfg now key m).1
apply cfg (succeed_of key) m = succeed key m
apply cfg (undo_of key) m = undo key m
apply cfg (evict_at now) m = evict_stale cfg now m

abbrev pub IsValid : Table → Type 0
IsValid m = IsMap m × IsCounting m

apply-IsCounting :
    (cfg : BackoffConfig) (call : Call) (m : Table) → IsValid m → IsCounting (apply cfg call m)
unfolding apply succeed
apply-IsCounting cfg (attempt_at now key) m v = attempt-IsCounting cfg now key m v.1
apply-IsCounting cfg (succeed_of key) m v = erase-IsCounting key m v.1
apply-IsCounting cfg (undo_of key) m v = undo-IsCounting key m v.1
apply-IsCounting cfg (evict_at now) m v = evict-IsCounting cfg now m v.0 v.1

apply-IsMap : (cfg : BackoffConfig) (call : Call) (m : Table) → IsMap m → IsMap (apply cfg call m)
unfolding apply attempt attempt_known succeed undo undo_known evict_stale
apply-IsMap cfg (attempt_at now key) m u = grind (
  arith,
  insert-IsMap key (first_failure now) m u,
  λ (a : Entry). insert-IsMap key (one_more a now) m u,
)
apply-IsMap cfg (succeed_of key) m u = erase-IsMap key m u
apply-IsMap cfg (undo_of key) m u = grind (
  arith,
  erase-IsMap key m u,
  λ (a : Entry). insert-IsMap key (record a { failures = a.failures - 1 }) m u,
)
apply-IsMap cfg (evict_at now) m u = retain-IsMap (λ b. not (stale cfg b now)) m u

-- Every call, in whatever order the callers make them, keeps the table well formed: one entry for
-- an account at most, and none that counts no failure.
pub apply-IsValid :
    (cfg : BackoffConfig) (call : Call) (m : Table) → IsValid m → IsValid (apply cfg call m)
apply-IsValid cfg call m v = (apply-IsMap cfg call m v.0, apply-IsCounting cfg call m v)

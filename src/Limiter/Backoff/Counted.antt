-- ===== src/Limiter/Backoff/Counted.antt =====
-- How much each call changes what is counted against an account.
use mathlib.Core.Path.{subst}
use quantsim.Prelude.{
  ℕ, ◌+◌, ◌-◌, ◌≤◌, ◌≡◌, refl, inl, inr, Bool, true, not, Option, none, some, arith, String,
  if◌then◌else◌, Option-cases, Bool-cases,
}
use quantsim.Prelude.Keys.{str_eq, str_eq_iff, string_keys}
use quantsim.Prelude.Map.{lookup, insert, lookup-insert, lookup-erase, lookup-retain, IsMap, kept}
use quantsim.Limiter.Backoff.Window.{attempt_of_new, attempt_of_known}
use quantsim.Limiter.Backoff.{
  BackoffConfig, Entry, Table, first_failure, one_more, delay, stale, throttled, attempt,
  attempt_known, evict_stale, succeed, undo, undo_known,
}

abbrev pub counted : Option Entry → ℕ
counted none = 0
counted (some a) = a.failures

abbrev pub failures_of : String → Table → ℕ
failures_of key m = counted (lookup key m)

put_lem :
    (key j : String) (b : Entry) (m : Table) (n : ℕ)
    → b.failures ≤ counted (lookup key m) + n
    → failures_of j (insert key b m) ≤ failures_of j m + (if str_eq key j then n else 0)
put_lem key j b m n h = elim (Bool-cases (str_eq key j)) [
  | inl same ↦
      let eq : key ≡ j = (str_eq_iff key j).0 same in
      let h' : b.failures ≤ counted (lookup j m) + n =
        subst (λ k. b.failures ≤ counted (lookup k m) + n) eq h in
      rw (lookup-insert j key b m, same) h'
  | inr other ↦ rw (lookup-insert j key b m, other) (omega arith)
]

kept_lem : (p : Entry → Bool) (o : Option Entry) → counted (kept p o) ≤ counted o
kept_lem p none = omega arith
kept_lem p (some a) = ground arith

attempt_known-Counted :
    (cfg : BackoffConfig) (now : ℕ) (key j : String) (a : Entry) (m : Table)
    → lookup key m ≡ some a
    → failures_of j (attempt_known cfg now key a m).1
      ≤ failures_of j m
        + (if (attempt_known cfg now key a m).0.is_allowed
            then (if str_eq key j then 1 else 0)
            else 0)
unfolding attempt_known
attempt_known-Counted cfg now key j a m e =
    let first = put_lem key j (first_failure now) m 1 (rw e (omega arith)) in
    let more = put_lem key j (one_more a now) m 1 (rw e (omega arith)) in
    ground (arith, first, more)

-- An attempt counts at most one failure, against its own account, and none if it is refused.
pub attempt_lem :
    (cfg : BackoffConfig) (now : ℕ) (key j : String) (m : Table)
    → failures_of j (attempt cfg now key m).1
      ≤ failures_of j m
        + (if (attempt cfg now key m).0.is_allowed then (if str_eq key j then 1 else 0) else 0)
attempt_lem cfg now key j m = elim (Option-cases (lookup key m)) [
  | inl e ↦
      rw (attempt_of_new cfg now key m e) (put_lem key j (first_failure now) m 1 (omega arith))
  | inr (a, e) ↦ rw (attempt_of_known cfg now key m a e) (attempt_known-Counted cfg now key j a m e)
]

pub succeed_lem :
    (key j : String) (m : Table)
    → failures_of j (succeed key m) ≡ (if str_eq key j then 0 else failures_of j m)
unfolding succeed
succeed_lem key j m = ground (arith, lookup-erase j key m)

undo_known-Counted :
    (key j : String) (a : Entry) (m : Table)
    → lookup key m ≡ some a
    → failures_of j (undo_known key a m)
      ≤ (if str_eq key j then failures_of j m - 1 else failures_of j m)
unfolding undo_known
undo_known-Counted key j a m e = ground (
  arith,
  lookup-erase j key m,
  lookup-insert j key (record a { failures = a.failures - 1 }) m,
  str_eq_iff key j,
)

pub undo_lem :
    (key j : String) (m : Table)
    → failures_of j (undo key m) ≤ (if str_eq key j then failures_of j m - 1 else failures_of j m)
unfolding undo
undo_lem key j m = elim (Option-cases (lookup key m)) [
  | inl e ↦ ground (arith, str_eq_iff key j)
  | inr (a, e) ↦ let known = undo_known-Counted key j a m e in rw (e, undo) known
]

-- With no more failures than are free, an account is let through.
pub attempt-free :
    (cfg : BackoffConfig) (now : ℕ) (key : String) (m : Table)
    → failures_of key m ≤ cfg.free_failures
    → (attempt cfg now key m).0.is_allowed ≡ true
unfolding attempt_known throttled delay
attempt-free cfg now key m h = elim (Option-cases (lookup key m)) [
  | inl e ↦ rw (attempt_of_new cfg now key m e) refl
  | inr (a, e) ↦
      let few : a.failures ≤ cfg.free_failures = rw e at h in
      rw (attempt_of_known cfg now key m a e) (ground arith)
]

pub evict_stale_lem :
    (cfg : BackoffConfig) (now : ℕ) (j : String) (m : Table)
    → IsMap m
    → failures_of j (evict_stale cfg now m) ≤ failures_of j m
unfolding evict_stale
evict_stale_lem cfg now j m u =
    rw (lookup-retain j (λ a. not (stale cfg a now)) m u)
      (kept_lem (λ a. not (stale cfg a now)) (lookup j m))

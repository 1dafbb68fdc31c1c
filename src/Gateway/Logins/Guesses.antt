-- ===== src/Gateway/Logins/Guesses.antt =====
-- What the limiter counts against an account, under every interleaving of the requests.
use quantsim.Prelude.{
  ℕ, zero, suc, ◌+◌, ◌≤◌, ◌≡◌, inl, inr, refl, some, Option-cases, Bool-cases, List, [], ◌∷◌, ◌==◌,
  arith, String, if◌then◌else◌,
}
use quantsim.Prelude.Keys.{str_eq, string_keys}
use quantsim.Prelude.Map.{lookup}
use quantsim.Limiter.Backoff.{BackoffConfig, Table, attempt}
use quantsim.Limiter.Backoff.Attempts.{
  IsValid, attempt_at, succeed_of, undo_of, evict_at, apply, apply-IsValid,
}
use quantsim.Limiter.Backoff.Counted.{
  failures_of, attempt_lem, succeed_lem, undo_lem, evict_stale_lem, attempt-free,
}
use quantsim.Gateway.RateLimit.{record_status, settle}
use quantsim.Gateway.Logins.{
  System, idle, Event, arrives, answers, aborts, evicts, pick, arrive, handle, handle_all, guesses,
  waiting,
}

-- Nothing is counted but wrong passwords and the requests that are not settled.
pub record IsFair (s : System) : Type 0 where
  pub valid : IsValid s.table
  pub bounded :
      (key : String) → failures_of key s.table ≤ guesses key s.verdicts + waiting key s.in_flight

waiting-pick :
    (key : String) (place : ℕ) (keys : List String) (j : String) (others : List String)
    → pick place keys ≡ some (j, others)
    → waiting key keys ≡ waiting key others + (if str_eq j key then 1 else 0)
unfolding waiting
waiting-pick key place [] j others e = cc e
waiting-pick key zero (k ∷ keys) j others e =
    let one : k ≡ j = cc e in let two : keys ≡ others = cc e in rw (one, two) (ground arith)
waiting-pick key (suc n) (k ∷ keys) j others e = elim (Option-cases (pick n keys)) [
  | inl bad ↦ cc (e, bad)
  | inr ((i, rest), is) ↦
      let ih = waiting-pick key n keys i rest is in
      let one : i ≡ j = ground arith in
      let two : k ∷ rest ≡ others = ground arith in rw⁻¹ (one, two) (ground (arith, ih))
]

settle_lem :
    (status : ℕ) (j key : String) (m : Table) (others : List String) (verdicts : List (String × ℕ))
    → failures_of key m
      ≤ guesses key verdicts + (waiting key others + (if str_eq j key then 1 else 0))
    → failures_of key (settle status j m)
      ≤ guesses key ((j, status) ∷ verdicts) + waiting key others
unfolding settle guesses
settle_lem status j key m others verdicts h = ground (arith, succeed_lem j key m, undo_lem j key m)

arrive-IsFair :
    (cfg : BackoffConfig) (now : ℕ) (key : String) (s : System)
    → IsFair s
    → IsFair (arrive cfg now key s)
unfolding arrive waiting apply
arrive-IsFair cfg now key s fair =
    let still = apply-IsValid cfg (attempt_at now key) s.table fair.valid in
    elim (Bool-cases (attempt cfg now key s.table).0.is_allowed) [
      | inl through ↦ rw through (record {
        valid = still;
        bounded = λ j. ground (arith, attempt_lem cfg now key j s.table, fair.bounded j);
      })
      | inr stopped ↦ rw stopped (record {
        valid = still;
        bounded = λ j. ground (arith, attempt_lem cfg now key j s.table, fair.bounded j);
      })
    ]

settle-IsValid :
    (cfg : BackoffConfig) (status : ℕ) (key : String) (m : Table)
    → IsValid m
    → IsValid (settle status key m)
unfolding settle apply
settle-IsValid cfg status key m v =
    let after_success = apply-IsValid cfg (succeed_of key) m v in
    let after_outage = apply-IsValid cfg (undo_of key) m v in
    elim (Bool-cases (status == 401)) [
      | inl wrong ↦ rw wrong v
      | inr other ↦ elim (Bool-cases (status == 200)) [
        | inl right ↦ rw (other, right) after_success
        | inr neither ↦ rw (other, neither) after_outage
      ]
    ]

handle-IsFair :
    (cfg : BackoffConfig) (event : Event) (s : System) → IsFair s → IsFair (handle cfg event s)
unfolding handle apply
handle-IsFair cfg (arrives now key) s fair = arrive-IsFair cfg now key s fair
handle-IsFair cfg (answers place written) s fair = elim (Option-cases (pick place s.in_flight)) [
  | inl nobody ↦ rw nobody fair
  | inr ((j, others), is) ↦
      let status = record_status 0 written in
      rw is (record {
        valid = settle-IsValid cfg status j s.table fair.valid;
        bounded = λ key.
            settle_lem status j key s.table others s.verdicts
              (rw⁻¹ (waiting-pick key place s.in_flight j others is) (fair.bounded key));
      })
]
handle-IsFair cfg (aborts place) s fair = fair
handle-IsFair cfg (evicts now) s fair = record {
  valid = apply-IsValid cfg (evict_at now) s.table fair.valid;
  bounded =
      λ key. omega (arith, evict_stale_lem cfg now key s.table fair.valid.0, fair.bounded key);
}

handle_all-IsFair :
    (cfg : BackoffConfig) (events : List Event) (s : System)
    → IsFair s
    → IsFair (handle_all cfg events s)
unfolding handle_all
handle_all-IsFair cfg [] s fair = fair
handle_all-IsFair cfg (event ∷ events) s fair =
    handle_all-IsFair cfg events (handle cfg event s) (handle-IsFair cfg event s fair)

idle-IsFair : IsFair idle
unfolding lookup
idle-IsFair = record { valid = (tt, λ j a e. ground arith); bounded = λ j. ground arith }

-- Only wrong passwords and unsettled requests count. However the requests of all callers interleave,
-- from an empty table: an account is let through as long as its 401 answers since its last 200, with
-- its requests that are not settled (the backend is still answering them, or the proxy gave them up by
-- a panic), are no more than the free failures. No answer of an outage or to a malformed request, no
-- success and no other account brings it nearer to a refusal.
pub arrives-Admitted :
    (cfg : BackoffConfig) (events : List Event) (now : ℕ) (key : String)
    → let s = handle_all cfg events idle in
      guesses key s.verdicts + waiting key s.in_flight ≤ cfg.free_failures
      → handle cfg (arrives now key) s
        ≡ record s { table = (attempt cfg now key s.table).1; in_flight = key ∷ s.in_flight }
unfolding handle arrive
arrives-Admitted cfg events now key few =
    let s = handle_all cfg events idle in
    let fair = handle_all-IsFair cfg events idle idle-IsFair in
    let free = attempt-free cfg now key s.table (omega (arith, few, fair.bounded key)) in
    rw free refl

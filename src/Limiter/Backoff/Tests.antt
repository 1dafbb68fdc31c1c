-- ===== src/Limiter/Backoff/Tests.antt =====
-- The backoff on one account, five failures into an allowance of four.
use quantsim.Prelude.{
  ◌+◌, ◌*◌, ◌^◌, ◌≤◌, ◌≡◌, ◌≢◌, ◌↔◌, refl, min, true, false, some, [], ◌∷◌, String, arith,
}
use quantsim.Prelude.Int.{pos, ◌≤ℤ◌, ◌-ℤ◌}
use quantsim.Prelude.Keys.{string_keys, str_ne}
use quantsim.Prelude.Map.{lookup, insert, IsMap}
use quantsim.Limiter.Answer.{refused}
use quantsim.Limiter.Backoff.{
  BackoffConfig, Entry, Table, delay, stale, attempt, attempt_known, succeed, undo, evict_stale,
}
use quantsim.Limiter.Backoff.Schedule.{schedule, delay_closed, delay_mono}
use quantsim.Limiter.Backoff.Window.{retry_exact, isolation}
use quantsim.Limiter.Backoff.Attempts.{
  taken_back, undo-attempt, IsCounting, insert-IsCounting, IsValid, evict_at, apply, apply-IsValid,
}
use quantsim.Limiter.Backoff.Sweep.{evict_invisible, undo_restarts_wait}
use quantsim.Limiter.Backoff.Burst.{Attempts, passed, asked, burst_bounded}

abbrev cfg : BackoffConfig
cfg = schedule 4 60 900

abbrev fifth : Entry
fifth = record { failures = 5; last_failure = 1_000 }

abbrev table : Table
table = ("ann", fifth) ∷ []

fifth_delay : delay 5 cfg ≡ pos 60
fifth_delay = delay_closed 4 60 900 0 (omega arith)

found : lookup "ann" table ≡ some fifth
unfolding lookup
found = refl

no_history : IsCounting []
unfolding lookup
no_history key a e = cc e

table-IsCounting : IsCounting table
unfolding insert
table-IsCounting = insert-IsCounting "ann" fifth [] (omega arith) no_history

table-IsMap : IsMap table
unfolding lookup
table-IsMap = (refl, tt)

refused_at_1030 : (attempt cfg 1_030 "ann" table).0 ≡ refused (pos 30)
unfolding attempt attempt_known lookup delay ◌-ℤ◌
refused_at_1030 = refl

allowed_at_1100 : (attempt cfg 1_100 "ann" table).0.is_allowed ≡ true
unfolding attempt attempt_known lookup delay
allowed_at_1100 = refl

delay_closed_example : delay (4 + 3) cfg ≡ pos (min (60 * 2 ^ 2) 900)
delay_closed_example = delay_closed 4 60 900 2 (omega arith)

delay_mono_example :
    (pos 0 ≤ℤ delay 6 cfg) × (delay 6 cfg ≤ℤ delay 40 cfg) × (delay 40 cfg ≤ℤ pos 900)
delay_mono_example = delay_mono 4 60 900 6 40 (omega arith) (omega arith)

retry_exact_example : ((attempt cfg 1_070 "ann" table).0.is_allowed ≡ true) ↔ (1_030 + 30 ≤ 1_070)
retry_exact_example = retry_exact cfg 1_030 1_070 30 "ann" table refused_at_1030 (omega arith)

ann_apart : ◌≢◌ {A = String} "ann" "bob"
ann_apart = str_ne "ann" "bob" refl

isolation_example :
    (lookup "bob" (attempt cfg 1_100 "ann" table).1 ≡ lookup "bob" table)
    × (lookup "bob" (succeed "ann" table) ≡ lookup "bob" table)
    × (lookup "bob" (undo "ann" table) ≡ lookup "bob" table)
isolation_example = isolation cfg 1_100 "ann" "bob" table ann_apart

undo-attempt_example :
    lookup "ann" (undo "ann" (attempt cfg 1_100 "ann" table).1)
    ≡ taken_back cfg 1_100 (lookup "ann" table)
undo-attempt_example = undo-attempt cfg 1_100 "ann" table (table-IsCounting "ann") allowed_at_1100

apply-IsValid_example : IsValid (apply cfg (evict_at 1_950) table)
apply-IsValid_example = apply-IsValid cfg (evict_at 1_950) table (table-IsMap, table-IsCounting)

evict_invisible_example :
    let swept = evict_stale cfg 1_950 table in
    ((attempt cfg 2_000 "ann" swept).0 ≡ (attempt cfg 2_000 "ann" table).0)
    × (lookup "ann" (attempt cfg 2_000 "ann" swept).1
        ≡ lookup "ann" (attempt cfg 2_000 "ann" table).1)
evict_invisible_example =
    evict_invisible cfg 1_950 2_000 "ann" table (table-IsMap, table-IsCounting) (omega arith)

undo_restarts_wait_example :
    (attempt cfg 1_130 "ann" (undo "ann" (attempt cfg 1_100 "ann" table).1)).0.is_allowed ≡ false
unfolding stale
undo_restarts_wait_example =
    undo_restarts_wait cfg 1_100 1_130 60 "ann" fifth table (table-IsMap, table-IsCounting) found
      refl allowed_at_1100 fifth_delay (omega arith) (omega arith)

abbrev burst : Attempts
burst =
    ("ann", 10)
    ∷ ("bob", 11)
    ∷ ("ann", 11)
    ∷ ("ann", 12)
    ∷ ("ann", 13)
    ∷ ("ann", 14)
    ∷ ("ann", 15)
    ∷ []

burst_bounded_example : passed cfg "ann" burst [] ≡ min (asked "ann" burst) (4 + 1)
unfolding lookup
burst_bounded_example =
    burst_bounded 4 60 900 10 "ann" burst [] (omega arith) (omega arith) (omega arith) refl
      (ground arith)

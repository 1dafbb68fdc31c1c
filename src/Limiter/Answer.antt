-- ===== src/Limiter/Answer.antt =====
-- `limiter.Result` (services/gateway/internal/limiter/limiter.go): whether a request may pass, and
-- if not, for how long it must wait.
use quantsim.Prelude.{Bool, true, false}
use quantsim.Prelude.Int.{ℤ, pos}

pub record Result : Type 0 where
  pub is_allowed : Bool
  pub retry_after : ℤ

-- `Result{Allowed: true}` and `Result{Allowed: false, RetryAfter: wait}`
abbrev pub allowed : Result
allowed = record { is_allowed = true; retry_after = pos 0 }

abbrev pub refused : ℤ → Result
refused wait = record { is_allowed = false; retry_after = wait }

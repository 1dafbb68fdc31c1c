-- ===== src/Auth/Handler/Statuses.antt =====
-- What a caller of the login route can tell.
use quantsim.Prelude.{◌≡◌, true, false, ap}
use quantsim.Auth.Types.{User, LoginRequest}
use quantsim.Auth.World.{World, Env, ticked}
use quantsim.Auth.Service.{issue_token_pair}
use quantsim.Auth.Service.Uniform.{Authentic, spent, login_uniform}
use quantsim.Auth.Handler.{
  decoded, failed, internal, credentials_message, answer, login_failure, handle_login,
}

module _ (env : Env) where
  -- The login route has one reply for an unknown address and for a wrong password, and the same work
  -- behind both. Whenever the look-up reaches the database, one round of bcrypt is spent, whoever
  -- asks; then an authentic user gets what issuing tokens gives, and everybody else the same 401.
  -- When the look-up fails, the reply is 500 and no round is spent.
  pub handle_login_uniform :
      (req : LoginRequest) (w : World)
      → (env.fails w.tick ≡ true → handle_login env (decoded req) w ≡ (internal, ticked w))
        × (env.fails w.tick ≡ false
            → ((user : User)
                → Authentic env w.db req user
                → handle_login env (decoded req) w
                  ≡ answer 200 login_failure (issue_token_pair env user.id (spent env w)))
              × (¬ ((user : User) × Authentic env w.db req user)
                  → handle_login env (decoded req) w
                    ≡ (failed 401 "invalid_credentials" credentials_message, spent env w)))
  unfolding handle_login login_failure
  handle_login_uniform req w =
      let (broken, reached) = login_uniform env req w in
      (
        λ down. ap (answer 200 login_failure) (broken down),
        λ up. (
          λ user is. ap (answer 200 login_failure) ((reached up).0 user is),
          λ nobody. ap (answer 200 login_failure) ((reached up).1 nobody),
        ),
      )

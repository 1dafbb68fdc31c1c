-- ===== src/Auth/Service/Uniform.antt =====
-- Login does not tell an unknown address from a wrong password.
use quantsim.Prelude.{◌+◌, ◌≡◌, inl, inr, true, false, some, Bool-cases, Option-cases, arith}
use quantsim.Auth.Types.{User, LoginRequest, err, err_invalid_credentials, err_other}
use quantsim.Auth.Validate.{normalize_email}
use quantsim.Auth.World.{Db, World, Env, ticked}
use quantsim.Auth.Store.{find_email, get_user_by_email}
use quantsim.Auth.Service.{login, login_known, login_unknown, compare_hash, issue_token_pair}

module _ (env : Env) where
  -- The user whose address and password these are
  abbrev pub Authentic : Db → LoginRequest → User → Type 0
  Authentic db req user =
      (find_email env (normalize_email env.unicode req.email) db.users ≡ some user)
      × (env.matches user.hash req.password ≡ true)

  -- One look-up and one round of bcrypt later
  abbrev pub spent : World → World
  spent w = record w { tick = w.tick + 1; comparisons = w.comparisons + 1 }

  pub login_uniform :
      (req : LoginRequest) (w : World)
      → (env.fails w.tick ≡ true → login env req w ≡ (err err_other, ticked w))
        × (env.fails w.tick ≡ false
            → ((user : User)
                → Authentic w.db req user
                → login env req w ≡ issue_token_pair env user.id (spent w))
              × (¬ ((user : User) × Authentic w.db req user)
                  → login env req w ≡ (err err_invalid_credentials, spent w)))
  unfolding login get_user_by_email login_known login_unknown compare_hash ticked
  login_uniform req w =
      let found = find_email env (normalize_email env.unicode req.email) w.db.users in
      (
        λ down. ground arith,
        λ up. (
          λ user (is, same). ground arith,
          λ nobody. elim (Option-cases found) [
            | inl unknown ↦ ground arith
            | inr (user, is) ↦ elim (Bool-cases (env.matches user.hash req.password)) [
              | inl same ↦ absurd (nobody (user, (is, same)))
              | inr wrong ↦ ground arith
            ]
          ],
        ),
      )

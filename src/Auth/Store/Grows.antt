-- ===== src/Auth/Store/Grows.antt =====
-- What creating a user does to the tables.
use quantsim.Prelude.{ℕ, ◌+◌, ◌≤◌, ◌≡◌, false, ◌∷◌, arith}
use quantsim.Prelude.Text.{Text}
use quantsim.Auth.Types.{User, Result, ok, err}
use quantsim.Auth.World.{Db, World, Env, ticked}
use quantsim.Auth.Store.{taken, new_user, insert_account, create_user_with_account}

-- The tables with a user and its account in front
abbrev pub with_user : User → ℕ → Db → Db
with_user user balance db = record {
  users = user ∷ db.users;
  accounts = record { user_id = user.id; balance = balance } ∷ db.accounts;
}

-- Creating a user either fails and changes nothing of what is durable, or it adds one user, which
-- collides with none, and its account.
abbrev pub Created : Env → Text → Text → Text → ℕ → World → Result ℕ → World → Type 0
Created env email username h balance w (err e) w' =
    (w'.db ≡ w.db) × ((w'.denied ≡ w.denied) × (w.tick ≤ w'.tick))
Created env email username h balance w (ok id) w' =
    let user = new_user env (w.tick + 1) email username h in
    (taken env user w.db.users ≡ false)
    × ((id ≡ user.id)
        × ((w'.db ≡ with_user user balance w.db) × ((w'.denied ≡ w.denied) × (w.tick ≤ w'.tick))))

module _ (env : Env) where
  pub create-Created :
      (email username h : Text) (balance : ℕ) (w : World)
      → Created env email username h balance w
          (create_user_with_account env email username h balance w).0
          (create_user_with_account env email username h balance w).1
  unfolding create_user_with_account insert_account ticked
  create-Created email username h balance w = ground arith

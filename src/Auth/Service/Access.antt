-- ===== src/Auth/Service/Access.antt =====
-- Who has registered can log in, whatever happens in between.
use mathlib.Core.Path.{subst}
use quantsim.Prelude.{
  ℕ, ◌≡◌, inl, inr, sym, ap, ◌∙◌, true, false, Bool-cases, some, List, [], ◌∷◌, arith,
}
use quantsim.Prelude.Text.{Text, text_eq, text_eq_iff}
use quantsim.Auth.Types.{User, RegisterRequest, LoginRequest, TokenPair, ok}
use quantsim.Auth.Validate.{normalize_email}
use quantsim.Auth.Validate.Accepts.{validate_registration_exact}
use quantsim.Auth.World.{Db, World, Env, hashed}
use quantsim.Auth.Store.{collides, taken, find_email}
use quantsim.Auth.Store.Grows.{with_user}
use quantsim.Auth.Service.{Call, after, run, register, login, issue_token_pair, starting_balance}
use quantsim.Auth.Service.Registered.{IsRegistered, register-Registered}
use quantsim.Auth.Service.Accounts.{after-db}
use quantsim.Auth.Service.Uniform.{Authentic, spent, login_uniform}

module _ (env : Env) where
  found-taken :
      (email : Text) (new user : User) (rows : List User)
      → find_email env email rows ≡ some user
      → env.lower new.email ≡ email
      → taken env new rows ≡ true
  unfolding find_email taken collides
  found-taken email new user [] found same = cc found
  found-taken email new user (row ∷ rows) found same =
      elim (Bool-cases (text_eq (env.lower row.email) email)) [
        | inl here ↦
            let both : text_eq (env.lower row.email) (env.lower new.email) ≡ true = rw same here in
            ground arith
        | inr there ↦ ground (arith, found-taken email new user rows (ground arith) same)
      ]

  -- A row found by its address stays the one that is found: a row in front with the same address
  -- would have been a collision.
  find_email-with_user :
      (email : Text) (new user : User) (rows : List User)
      → taken env new rows ≡ false
      → find_email env email rows ≡ some user
      → find_email env email (new ∷ rows) ≡ some user
  unfolding find_email
  find_email-with_user email new user rows free found =
      ground (arith, text_eq_iff (env.lower new.email) email, found-taken email new user rows found)

  pub run-find_email :
      (email : Text) (user : User) (calls : List Call) (w : World)
      → find_email env email w.db.users ≡ some user
      → find_email env email (run env calls w).db.users ≡ some user
  unfolding run
  run-find_email email user [] w found = found
  run-find_email email user (call ∷ calls) w found =
      run-find_email email user calls (after env call w) (elim (after-db env call w) [
        | inl same ↦ subst (λ db. find_email env email db.users ≡ some user) (sym same) found
        | inr (new, (free, grown)) ↦
            subst (λ db. find_email env email db.users ≡ some user) (sym grown)
              (find_email-with_user email new user w.db.users free found)
      ])

-- What bcrypt documents: a hash that it made of a password matches that password.
abbrev pub IsBcrypt : Env → Type 0
IsBcrypt env =
    (salt : ℕ) (password h : Text)
    → env.hash salt password ≡ hashed h
    → env.matches h password ≡ true

-- The database's lower() changes nothing in what Go has made lower case.
abbrev pub IsLowered : Env → Type 0
IsLowered env =
    (email : Text)
    → env.lower (normalize_email env.unicode email) ≡ normalize_email env.unicode email

module _ (env : Env) where
  registered-find_email :
      (req : RegisterRequest) (w : World) (user : User) (db' : Db)
      → IsLowered env
      → IsRegistered env req w user
      → db' ≡ with_user user starting_balance w.db
      → find_email env (normalize_email env.unicode req.email) db'.users ≡ some user
  unfolding find_email normalize_email
  registered-find_email req w user db' low r grown =
      let valid =
        validate_registration_exact env.unicode env.parse_address env.common req user.email
          user.username in
      let same : normalize_email env.unicode req.email ≡ user.email =
        ap (λ p. p.0) (valid.0 r.valid).1 in
      let fixed : env.lower user.email ≡ normalize_email env.unicode req.email =
        ap env.lower (sym same) ∙ low req.email in
      rw grown (
        ground (
          arith,
          fixed,
          text_eq_iff (env.lower user.email) (normalize_email env.unicode req.email),
        ))

  -- Who has registered can log in. After a registration that returned tokens, and whatever requests
  -- came since then, the same password with the same address in any case and with spaces around it
  -- logs in, for as long as the look-up reaches the database: the answer is that of issuing tokens
  -- for the user that the registration stored. bcrypt must match its own hashes, and the database's
  -- lower() must leave alone what Go has made lower case.
  pub register-login :
      (req : RegisterRequest) (again : LoginRequest) (w : World) (pair : TokenPair)
      (calls : List Call)
      → IsBcrypt env
      → IsLowered env
      → (register env req w).0 ≡ ok pair
      → normalize_email env.unicode again.email ≡ normalize_email env.unicode req.email
      → again.password ≡ req.password
      → let w' = run env calls (register env req w).1 in
        (user : User) × (IsRegistered env req w user
          × (env.fails w'.tick ≡ false
              → login env again w' ≡ issue_token_pair env user.id (spent env w')))
  register-login req again w pair calls bcrypt low done address secret =
      elim (register-Registered env req w) [
        | inl ((e, failed), unchanged) ↦ cc (done, failed)
        | inr (user, (r, (grown, issued))) ↦
            let w1 = (register env req w).1 in
            let found = registered-find_email req w user w1.db low r grown in
            let later =
              run-find_email env (normalize_email env.unicode req.email) user calls w1 found in
            let is : Authentic env (run env calls w1).db again user =
              (rw address later, rw secret (bcrypt r.salt req.password user.hash r.hash_of)) in
            (user, (r, λ up. ((login_uniform env again (run env calls w1)).1 up).0 user is))
      ]

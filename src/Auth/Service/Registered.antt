-- ===== src/Auth/Service/Registered.antt =====
-- How a registration ends.
use mathlib.Core.Path.{subst}
use quantsim.Prelude.{ℕ, ◌+◌, ◌≤◌, ◌≡◌, ◌⊎◌, inl, inr, refl, ap, sym, ◌∙◌, false, arith}
use quantsim.Prelude.Text.{Text, text_keys}
use quantsim.Auth.Types.{User, Error, Result, ok, err, RegisterRequest, TokenPair}
use quantsim.Auth.Validate.{validate_registration}
use quantsim.Auth.World.{World, Env, ticked, Act, ◌>>=◌, >>=-post, hashed}
use quantsim.Auth.Store.Grows.{with_user, Created, create-Created}
use quantsim.Auth.Store.{taken, new_user, create_user_with_account}
use quantsim.Auth.Service.{issue_token_pair, hash_password, register, starting_balance}
use quantsim.Auth.Service.Frame.{Same, issue_token_pair-Same}

module _ (env : Env) where
  hash_password-Same : (p : Text) (w : World) → Same env w (hash_password env p w).1
  unfolding hash_password ticked
  hash_password-Same p w = ground arith

  hash_password-ok :
      (p h : Text) (w : World) → (hash_password env p w).0 ≡ ok h → env.hash w.tick p ≡ hashed h
  unfolding hash_password
  hash_password-ok p h w e = ground arith

  -- The user that a registration stores: in the normal form that the rules give, under a hash that
  -- bcrypt made of the password.
  pub record IsRegistered (req : RegisterRequest) (w : World) (user : User) : Type 0 where
    pub valid :
        validate_registration env.unicode env.parse_address env.common req
        ≡ ok (user.email, user.username)
    pub salt : ℕ
    pub hash_of : env.hash salt req.password ≡ hashed user.hash
    pub free : taken env user w.db.users ≡ false

  -- How a registration ends. An error leaves the tables as they were, unless the signing of the
  -- tokens fails after the user is stored.
  abbrev pub Registered : RegisterRequest → World → Result TokenPair → World → Type 0
  Registered req w r w' =
      (((e : Error) × (r ≡ err e)) × (w'.db ≡ w.db))
      ⊎ ((user : User) × (IsRegistered req w user
            × ((w'.db ≡ with_user user starting_balance w.db)
                × ((w1 : World) × ((issue_token_pair env user.id w1) ≡ (r, w'))))))

  -- The end of a registration, from the checked identity and the hash on
  abbrev stores : Text → Text → Text → Act TokenPair
  stores email username h = create_user_with_account env email username h starting_balance >>= λ id.
      issue_token_pair env id

  stores-Registered :
      (req : RegisterRequest) (email username h : Text) (w w1 : World)
      → validate_registration env.unicode env.parse_address env.common req ≡ ok (email, username)
      → env.hash w.tick req.password ≡ hashed h
      → w1.db ≡ w.db
      → Registered req w (stores email username h w1).0 (stores email username h w1).1
  unfolding new_user
  stores-Registered req email username h w w1 valid salted same =
      let made = create_user_with_account env email username h starting_balance in
      let stored = create-Created env email username h starting_balance w1 in
      >>=-post (Registered req w) made (issue_token_pair env) w1
        (λ e failed.
          let kept : Created env email username h starting_balance w1 (err e) (made w1).1 =
            subst (λ r. Created env email username h starting_balance w1 r (made w1).1) failed
              stored in
          inl ((e, refl), kept.0 ∙ same))
        (λ id done.
          let kept : Created env email username h starting_balance w1 (ok id) (made w1).1 =
            subst (λ r. Created env email username h starting_balance w1 r (made w1).1) done
              stored in
          let user = new_user env (w1.tick + 1) email username h in
          let (free, (id_same, (db_same, others))) = kept in
          let registered : IsRegistered req w user = record {
            valid = valid;
            salt = w.tick;
            hash_of = salted;
            free = subst (λ db. taken env user db.users ≡ false) same free;
          } in
          inr (
            user,
            (
              registered,
              (
                (issue_token_pair-Same env id (made w1).1).0
                    ∙ db_same
                    ∙ ap (with_user user starting_balance) same,
                ((made w1).1, ap (λ i. issue_token_pair env i (made w1).1) (sym id_same)),
              ),
            ),
          ))

  pub register-Registered :
      (req : RegisterRequest) (w : World)
      → Registered req w (register env req w).0 (register env req w).1
  unfolding register
  register-Registered req w =
      >>=-post (Registered req w)
        (λ w1. (validate_registration env.unicode env.parse_address env.common req, w1))
        (λ p. hash_password env req.password >>= λ h. stores p.0 p.1 h) w
        (λ e same. inl ((e, refl), refl))
        (λ p valid.
          >>=-post (Registered req w) (hash_password env req.password) (λ h. stores p.0 p.1 h) w
            (λ e same. inl ((e, refl), (hash_password-Same req.password w).0))
            (λ h made.
              stores-Registered req p.0 p.1 h w (hash_password env req.password w).1 valid
                (hash_password-ok req.password h w made) (hash_password-Same req.password w).0))

  -- The denylist is as it was, and time goes on.
  abbrev pub Kept : World → World → Type 0
  Kept w w' = (w'.denied ≡ w.denied) × (w.tick ≤ w'.tick)

  Kept-trans : (a b c : World) → Kept a b → Kept b c → Kept a c
  Kept-trans a b c p q = (q.0 ∙ p.0, omega (arith, p.1, q.1))

  stores-Kept : (email username h : Text) (w : World) → Kept w (stores email username h w).1
  stores-Kept email username h w =
      let made = create_user_with_account env email username h starting_balance in
      let stored = create-Created env email username h starting_balance w in
      >>=-post (λ r w'. Kept w w') made (issue_token_pair env) w
        (λ e failed.
          (subst (λ r. Created env email username h starting_balance w r (made w).1) failed
            stored).1)
        (λ id done.
          let kept : Created env email username h starting_balance w (ok id) (made w).1 =
            subst (λ r. Created env email username h starting_balance w r (made w).1) done stored in
          let last = issue_token_pair-Same env id (made w).1 in
          Kept-trans w (made w).1 (issue_token_pair env id (made w).1).1 kept.1.1.1 last.1)

  pub register-Kept : (req : RegisterRequest) (w : World) → Kept w (register env req w).1
  unfolding register
  register-Kept req w =
      >>=-post (λ r w'. Kept w w')
        (λ w1. (validate_registration env.unicode env.parse_address env.common req, w1))
        (λ p. hash_password env req.password >>= λ h. stores p.0 p.1 h) w
        (λ e same. (refl, omega arith))
        (λ p valid.
          let w1 = (hash_password env req.password w).1 in
          let hashing = hash_password-Same req.password w in
          >>=-post (λ r w'. Kept w w') (hash_password env req.password) (λ h. stores p.0 p.1 h) w
            (λ e same. hashing.1)
            (λ h made.
              Kept-trans w w1 (stores p.0 p.1 h w1).1 hashing.1 (stores-Kept p.0 p.1 h w1)))

-- ===== src/Auth/Service/Frame.antt =====
-- What each operation of the service may change of the world.
use mathlib.Core.Path.{subst}
use quantsim.Prelude.{ℕ, ◌+◌, ◌≤◌, ◌≡◌, ◌⊎◌, inl, inr, refl, sym, some, arith, Bool-cases}
use quantsim.Prelude.Int.{sub_ℕ, pos, leb_ℤ}
use quantsim.Prelude.Map.{insert}
use quantsim.Prelude.Text.{Text, text_keys, is_empty}
use quantsim.Auth.Types.{ok, LoginRequest}
use quantsim.Auth.World.{World, Env, TokenType, Claims, ticked, pure, >>=-post}
use quantsim.Auth.Tokens.{generate_token, validate_token}
use quantsim.Auth.Store.{get_user_by_email, get_user_by_id, revoke, is_revoked, revoked_key}
use quantsim.Auth.Service.{
  issue_token_pair, compare_hash, login_unknown, login_known, login, refresh_user, refresh_valid,
  refresh_claims, refresh_tokens, logout_valid, logout, me, profile,
}

module _ (env : Env) where
  -- Nothing but the clock has moved.
  abbrev pub Same : World → World → Type 0
  Same w w' = (w'.db ≡ w.db) × ((w'.denied ≡ w.denied) × (w.tick ≤ w'.tick))

  generate_token-Same :
      (s : Text) (t : TokenType) (ttl : ℕ) (w : World) → Same w (generate_token env s t ttl w).1
  unfolding generate_token ticked
  generate_token-Same s t ttl w = ground arith

  pub issue_token_pair-Same : (id : ℕ) (w : World) → Same w (issue_token_pair env id w).1
  unfolding issue_token_pair generate_token ticked
  issue_token_pair-Same id w = ground arith

  pub login-Same : (req : LoginRequest) (w : World) → Same w (login env req w).1
  unfolding login get_user_by_email login_known login_unknown compare_hash ticked issue_token_pair
      generate_token
  login-Same req w = ground arith

  get_user_by_id-Same : (id : ℕ) (w : World) → Same w (get_user_by_id env id w).1
  unfolding get_user_by_id ticked
  get_user_by_id-Same id w = ground arith

  refresh_user-Same : (claims : Claims) (w : World) → Same w (refresh_user env claims w).1
  unfolding refresh_user get_user_by_id ticked issue_token_pair generate_token
  refresh_user-Same claims w = ground arith

  pub refresh_tokens-Same : (token : Text) (w : World) → Same w (refresh_tokens env token w).1
  unfolding refresh_tokens refresh_claims refresh_valid is_revoked ticked refresh_user
      get_user_by_id issue_token_pair generate_token
  refresh_tokens-Same token w = ground arith

  pub me-Same : (id : ℕ) (w : World) → Same w (me env id w).1
  unfolding me
  me-Same id w =
      >>=-post (λ r w'. Same w w') (get_user_by_id env id) (λ user. pure (profile env user)) w
        (λ e failed. get_user_by_id-Same id w) (λ user found. get_user_by_id-Same id w)

  -- A key is put on the denylist at one tick, for what the token had left at an earlier one.
  abbrev pub Denies : Claims → World → World → Type 0
  Denies claims w w' =
      (n : ℕ) × (m : ℕ) × ((n ≤ m)
        × (w'.denied
            ≡ insert (revoked_key env claims.id)
                (env.clock m + env.keeps (sub_ℕ claims.expires_at (env.clock n))) w.denied))

  -- How a sign-out ends: with the denylist as it was, or with the key of a token that it accepted.
  abbrev pub LoggedOut : Text → World → World → Type 0
  LoggedOut token w w' =
      (w'.db ≡ w.db)
      × ((w.tick ≤ w'.tick)
          × ((w'.denied ≡ w.denied)
              ⊎ ((claims : Claims) × ((validate_token env (env.clock w.tick) token ≡ some claims)
                    × Denies claims w w'))))

  refresh_claims_lem :
      (token : Text) (claims : Claims) (w : World)
      → (refresh_claims env token w).0 ≡ ok claims
      → validate_token env (env.clock w.tick) token ≡ some claims
  unfolding refresh_claims
  refresh_claims_lem token claims w e = ground arith

  refresh_claims-world : (token : Text) (w : World) → (refresh_claims env token w).1 ≡ ticked w
  unfolding refresh_claims
  refresh_claims-world token w = ground arith

  logout_valid-world :
      (claims : Claims) (w : World)
      → let w' = (logout_valid env claims w).1 in
        (w'.db ≡ w.db) × ((w.tick ≤ w'.tick) × ((w'.denied ≡ w.denied) ⊎ Denies claims w w'))
  unfolding logout_valid revoke ticked
  logout_valid-world claims w =
      let ttl = sub_ℕ claims.expires_at (env.clock w.tick) in
      elim (Bool-cases (leb_ℤ ttl (pos 0))) [
        | inl gone ↦ ground arith
        | inr left ↦ elim (Bool-cases (is_empty claims.id)) [
          | inl unnamed ↦ ground arith
          | inr named ↦ elim (Bool-cases (env.fails (w.tick + 1))) [
            | inl down ↦ ground arith
            | inr up ↦ (
              ground arith,
              (ground arith, inr (w.tick, w.tick + 1, (omega arith, rw (named, left, up) refl))),
            )
          ]
        ]
      ]

  pub logout-LoggedOut : (token : Text) (w : World) → LoggedOut token w (logout env token w).1
  unfolding logout ticked
  logout-LoggedOut token w =
      >>=-post (λ r w'. LoggedOut token w w') (refresh_claims env token) (logout_valid env) w
        (λ e failed.
          subst (λ w'. LoggedOut token w w') (sym (refresh_claims-world token w))
            (refl, (omega arith, inl refl)))
        (λ claims valid.
          let (db_same, (later, deny)) = logout_valid-world claims (ticked w) in
          subst (λ w1. LoggedOut token w (logout_valid env claims w1).1)
            (sym (refresh_claims-world token w))
            (
              db_same,
              (
                omega (arith, later),
                elim deny [
                  | inl same ↦ inl same
                  | inr put ↦ inr (claims, (refresh_claims_lem token claims w valid, put))
                ],
              ),
            ))

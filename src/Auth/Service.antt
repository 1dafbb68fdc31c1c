-- ===== src/Auth/Service.antt =====
-- The operations of the service (services/auth/internal/service/auth.go), and sequences of them.
pub mod Frame
pub mod Registered
pub mod Denied
pub mod Accounts
pub mod Access
pub mod Uniform
pub mod Revoked
pub mod Issued
use quantsim.Prelude.{
  ℕ, zero, ◌+◌, ◌*◌, ◌/◌, ◌^◌, Bool, true, false, Option, none, some, List, [], ◌∷◌, if◌then◌else◌,
}
use quantsim.Prelude.Int.{ℤ, pos, sub_ℕ, leb_ℤ}
use quantsim.Prelude.Text.{Text, is_empty}
use quantsim.Auth.Types.{
  password_over_bytes, Error, err_invalid_input, err_invalid_credentials, err_token_invalid,
  err_user_not_found, err_duplicate_user, err_other, Result, ok, err, RegisterRequest, LoginRequest,
  User, MeResponse, TokenPair,
}
use quantsim.Auth.Validate.{validate_registration, normalize_email}
use quantsim.Auth.World.{
  World, Env, access, refresh, Claims, hashed, too_long, no_entropy, ticked, Act, ◌>>=◌, pure,
  raise,
}
use quantsim.Auth.Tokens.{is_refresh, generate_token, validate_token}
use quantsim.Auth.Store.{
  create_user_with_account, get_user_by_email, get_user_by_id, revoke, is_revoked,
}

-- Durations are in nanoseconds.
abbrev pub second : ℕ
second = 1_000_000_000

abbrev pub access_token_ttl : ℕ
access_token_ttl = 900 * second

abbrev pub refresh_token_ttl : ℕ
refresh_token_ttl = 604_800 * second

abbrev pub starting_balance : ℕ
starting_balance = 100_000

module _ (env : Env) where
  unfoldable pub issue_token_pair : ℕ → Act TokenPair
  unfolding generate_token
  issue_token_pair user_id =
      generate_token env (env.print_uuid user_id) access access_token_ttl >>= λ token.
      generate_token env (env.print_uuid user_id) refresh refresh_token_ttl >>= λ other.
      pure (record {
        access_token = token;
        refresh_token = other;
        expires_in = access_token_ttl / second;
      })

  -- `bcrypt.GenerateFromPassword` and the mapping of its errors
  unfoldable pub hash_password : Text → Act Text
  unfolding ticked
  hash_password password w = elim (env.hash w.tick password) [
    | hashed h ↦ (ok h, ticked w)
    | too_long ↦ (err (err_invalid_input password_over_bytes), ticked w)
    | no_entropy ↦ (err err_other, ticked w)
  ]

  -- `ValidateRegistration` as a step
  abbrev checked : RegisterRequest → Act (Text × Text)
  checked req w = (validate_registration env.unicode env.parse_address env.common req, w)

  unfoldable pub register : RegisterRequest → Act TokenPair
  unfolding hash_password create_user_with_account issue_token_pair
  register req = checked req >>= λ p. hash_password req.password >>= λ h.
      create_user_with_account env p.0 p.1 h starting_balance >>= λ id. issue_token_pair id

  -- `bcrypt.CompareHashAndPassword`, which spends a round
  unfoldable pub compare_hash : Text → Text → World → Bool × World
  compare_hash h password w = (env.matches h password, record w { comparisons = w.comparisons + 1 })

  -- After the look-up found no user: the comparison whose outcome is dropped
  unfoldable pub login_unknown : Text → Act TokenPair
  unfolding compare_hash
  login_unknown password w =
      let (same, w') = compare_hash env.dummy_hash password w in (err err_invalid_credentials, w')

  unfoldable pub login_known : User → Text → Act TokenPair
  unfolding compare_hash issue_token_pair
  login_known user password w =
      let (same, w') = compare_hash user.hash password w in
      if same then issue_token_pair user.id w' else (err err_invalid_credentials, w')

  -- `errors.Is(err, ErrUserNotFound)`
  abbrev pub is_not_found : Error → Bool
  is_not_found err_user_not_found = true
  is_not_found err_duplicate_user = false
  is_not_found err_invalid_credentials = false
  is_not_found err_token_invalid = false
  is_not_found err_other = false
  is_not_found (err_invalid_input r) = false

  unfoldable pub login : LoginRequest → Act TokenPair
  unfolding get_user_by_email login_known login_unknown normalize_email
  login req w =
      let (r, w') = get_user_by_email env (normalize_email env.unicode req.email) w in
      elim r [
        | ok user ↦ login_known user req.password w'
        | err e ↦ if is_not_found e then login_unknown req.password w' else (err e, w')
      ]

  -- `Refresh` from `uuid.Parse` on
  unfoldable pub refresh_user : Claims → Act TokenPair
  unfolding get_user_by_id issue_token_pair
  refresh_user claims w = elim (env.parse_uuid claims.subject) [
    | none ↦ (err err_token_invalid, w)
    | some user_id ↦
        let (r, w') = get_user_by_id env user_id w in
        elim r [
          | ok user ↦ issue_token_pair user_id w'
          | err e ↦ (err (if is_not_found e then err_token_invalid else e), w')
        ]
  ]

  -- The denylist says no; an error of it says nothing.
  unfoldable pub refresh_valid : Claims → Act TokenPair
  unfolding is_revoked refresh_user
  refresh_valid claims w =
      let (answer, w') = is_revoked env claims.id w in
      elim answer [
        | none ↦ refresh_user claims w'
        | some revoked ↦ if revoked then (err err_token_invalid, w') else refresh_user claims w'
      ]

  -- `pkgauth.ValidateToken` and the check of the type, which reads the clock
  unfoldable pub refresh_claims : Text → Act Claims
  unfolding validate_token ticked
  refresh_claims token w = elim (validate_token env (env.clock w.tick) token) [
    | none ↦ (err err_token_invalid, ticked w)
    | some claims ↦
        if is_refresh claims.token_type
        then (ok claims, ticked w)
        else (err err_token_invalid, ticked w)
  ]

  unfoldable pub refresh_tokens : Text → Act TokenPair
  unfolding refresh_claims refresh_valid
  refresh_tokens token = refresh_claims token >>= λ claims. refresh_valid claims

  -- `Logout` from `time.Until` on, a second reading of the clock
  unfoldable pub logout_valid : Claims → Act (Unit {0})
  unfolding revoke ticked
  logout_valid claims w =
      let ttl = sub_ℕ claims.expires_at (env.clock w.tick) in
      if is_empty claims.id
      then (err err_token_invalid, w)
      else if leb_ℤ ttl (pos 0)
      then (ok tt, ticked w)
      else let (written, w') = revoke env claims.id ttl (ticked w) in (ok tt, w')

  unfoldable pub logout : Text → Act (Unit {0})
  unfolding refresh_claims logout_valid
  logout token = refresh_claims token >>= λ claims. logout_valid claims

  abbrev profile : User → MeResponse
  profile user = record {
    id = user.id;
    email = user.email;
    username = user.username;
    created_at = user.created_at;
    updated_at = user.updated_at;
  }

  unfoldable pub me : ℕ → Act MeResponse
  unfolding get_user_by_id
  me user_id = get_user_by_id env user_id >>= λ user. pure (profile user)

-- A request that reached the service
pub data Call : Type 0 where
  registers : RegisterRequest → Call
  logs_in : LoginRequest → Call
  refreshes : Text → Call
  logs_out : Text → Call
  reads_profile : ℕ → Call

module _ (env : Env) where
  -- What a request leaves behind, whatever its answer
  unfoldable pub after : Call → World → World
  unfolding register login refresh_tokens logout me
  after (registers req) w = (register env req w).1
  after (logs_in req) w = (login env req w).1
  after (refreshes token) w = (refresh_tokens env token w).1
  after (logs_out token) w = (logout env token w).1
  after (reads_profile id) w = (me env id w).1

  unfoldable pub run : List Call → World → World
  unfolding after
  run [] w = w
  run (call ∷ calls) w = run calls (after call w)

-- ===== src/Auth/Tokens.antt =====
-- Tokens (pkg/auth/jwt.go) and the gate that asks for one (pkg/auth/middleware.go).
use quantsim.Prelude.{ℕ, ◌+◌, ◌<◌, ◌≡◌, ltb, Bool, true, false, Option, none, some, if◌then◌else◌}
use quantsim.Prelude.Text.{Text, is_empty}
use quantsim.Auth.Types.{err_other, ok, err}
use quantsim.Auth.World.{TokenType, access, refresh, other_type, Claims, Env, ticked, Act}

-- `claims.TokenType != …`
abbrev pub is_access : TokenType → Bool
is_access access = true
is_access refresh = false
is_access (other_type t) = false

abbrev pub is_refresh : TokenType → Bool
is_refresh access = false
is_refresh refresh = true
is_refresh (other_type t) = false

module _ (env : Env) where
  -- The claims of a token that is made at this tick
  unfoldable pub claims_of : Text → TokenType → ℕ → ℕ → Claims
  claims_of user_id token_type ttl tick = record {
    token_type = token_type;
    id = env.print_uuid (env.uuid tick);
    subject = user_id;
    issued_at = env.numeric_date (env.clock tick);
    expires_at = env.numeric_date (env.clock tick + ttl);
  }

  unfoldable pub generate_token : Text → TokenType → ℕ → Act Text
  unfolding ticked
  generate_token user_id token_type ttl w =
      elim (env.sign env.secret (claims_of user_id token_type ttl w.tick)) [
        | none ↦ (err err_other, ticked w)
        | some token ↦ (ok token, ticked w)
      ]

  -- The key function: no key for what is not signed with HMAC
  unfoldable pub key_for : Text → Option Text
  key_for token = if env.is_hmac token then some env.secret else none

  -- `ValidateToken` at an instant
  unfoldable pub validate_token : ℕ → Text → Option Claims
  unfolding key_for
  validate_token now token = env.parse (key_for token) now token

  -- `RequireAuth`: the user id that the next handler finds on its context, `none` being the 401.
  -- The header is what follows "Bearer ", `none` if it does not begin with that.
  unfoldable pub require_auth : Option Text → ℕ → Option Text
  unfolding validate_token
  require_auth none now = none
  require_auth (some token) now = if is_empty token then none else elim (validate_token now token) [
    | none ↦ none
    | some claims ↦ if is_access claims.token_type then some claims.subject else none
  ]

-- What the JWT library documents: a token that this key signed is read back as it was until its
-- date of expiry, no longer; without a key nothing is read; and signing makes HMAC tokens that are
-- not empty.
pub record IsJwt (env : Env) : Type 0 where
  pub reads :
      (k t : Text) (c : Claims) (now : ℕ)
      → env.sign k c ≡ some t
      → env.parse (some k) now t ≡ (if ltb now c.expires_at then some c else none)
  pub unexpired :
      (k : Option Text) (now : ℕ) (t : Text) (c : Claims)
      → env.parse k now t ≡ some c
      → now < c.expires_at
  pub constant :
      (k : Option Text) (now later : ℕ) (t : Text) (c d : Claims)
      → env.parse k now t ≡ some c
      → env.parse k later t ≡ some d
      → c ≡ d
  pub hmac : (k t : Text) (c : Claims) → env.sign k c ≡ some t → env.is_hmac t ≡ true
  pub filled : (k t : Text) (c : Claims) → env.sign k c ≡ some t → is_empty t ≡ false

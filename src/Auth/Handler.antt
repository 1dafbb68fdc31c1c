-- ===== src/Auth/Handler.antt =====
-- The replies to requests (services/auth/internal/handler/auth.go). What `json.Decode` makes of a
-- body under the cap of 64 KiB is a parameter.
pub mod Statuses
use quantsim.Prelude.{ℕ, Bool, true, false, String, Option, none, some, if◌then◌else◌}
use quantsim.Prelude.Text.{Text, is_empty}
use quantsim.Auth.Types.{
  Rule, Error, err_invalid_input, err_duplicate_user, err_invalid_credentials, err_token_invalid,
  err_user_not_found, err_other, Result, ok, err, RegisterRequest, LoginRequest, TokenPair,
  MeResponse,
}
use quantsim.Auth.World.{World, Env}
use quantsim.Auth.Service.{register, login, refresh_tokens, logout, me}

pub data Decoded (A : Type 0) : Type 0 where
  decoded : A → Decoded A
  body_too_large : Decoded A
  body_malformed : Decoded A

-- `invalid_request` with the message of a rule or of the transport
pub data Message : Type 0 where
  too_large_message : Message
  malformed_message : Message
  token_required_message : Message
  rule_message : Rule → Message
  duplicate_message : Message
  credentials_message : Message
  token_message : Message
  internal_message : Message

-- A reply with the body of the success, or one with a status, a code and a message
pub data Reply (A : Type 0) : Type 0 where
  written : ℕ → A → Reply A
  failed : ℕ → String → Message → Reply A

abbrev pub status : {A : Type 0} → Reply A → ℕ
status (written code body) = code
status (failed code name message) = code

-- `decodeJSON`, and what the route does with what it decoded
abbrev after_decode :
    {A B : Type 0} → Decoded A → World → (A → World → Reply B × World) → Reply B × World
after_decode (decoded req) w next = next req w
after_decode body_too_large w next = (failed 413 "invalid_request" too_large_message, w)
after_decode body_malformed w next = (failed 400 "invalid_request" malformed_message, w)

abbrev pub internal : {B : Type 0} → Reply B
internal = failed 500 "internal_error" internal_message

-- The replies of `Register` to an error
unfoldable pub register_failure : Error → Reply TokenPair
register_failure (err_invalid_input rule) = failed 400 "invalid_request" (rule_message rule)
register_failure err_duplicate_user = failed 409 "duplicate_user" duplicate_message
register_failure err_invalid_credentials = internal
register_failure err_token_invalid = internal
register_failure err_user_not_found = internal
register_failure err_other = internal

unfoldable pub login_failure : Error → Reply TokenPair
login_failure err_invalid_credentials = failed 401 "invalid_credentials" credentials_message
login_failure (err_invalid_input rule) = internal
login_failure err_duplicate_user = internal
login_failure err_token_invalid = internal
login_failure err_user_not_found = internal
login_failure err_other = internal

unfoldable pub me_failure : Error → Reply MeResponse
me_failure err_user_not_found = failed 401 "invalid_token" token_message
me_failure (err_invalid_input rule) = internal
me_failure err_duplicate_user = internal
me_failure err_invalid_credentials = internal
me_failure err_token_invalid = internal
me_failure err_other = internal

-- The same in `Refresh` and in `Logout`
unfoldable pub token_failure : {B : Type 0} → Error → Reply B
token_failure err_token_invalid = failed 401 "invalid_token" token_message
token_failure (err_invalid_input rule) = internal
token_failure err_duplicate_user = internal
token_failure err_invalid_credentials = internal
token_failure err_user_not_found = internal
token_failure err_other = internal

-- `if err != nil { … }` and else `WriteJSON`
abbrev pub answer : {A : Type 0} → ℕ → (Error → Reply A) → Result A × World → Reply A × World
answer code failure (ok a, w) = (written code a, w)
answer code failure (err e, w) = (failure e, w)

module _ (env : Env) where
  unfoldable pub handle_register : Decoded RegisterRequest → World → Reply TokenPair × World
  unfolding register_failure
  handle_register body w =
      after_decode body w (λ req v. answer 201 register_failure (register env req v))

  unfoldable pub handle_login : Decoded LoginRequest → World → Reply TokenPair × World
  unfolding login_failure
  handle_login body w = after_decode body w (λ req v. answer 200 login_failure (login env req v))

  -- The user id on the context, `none` where there is none
  unfoldable pub handle_me : Option Text → World → Reply MeResponse × World
  unfolding me_failure
  handle_me none w = (failed 401 "invalid_token" token_message, w)
  handle_me (some id) w = elim (env.parse_uuid id) [
    | none ↦ (failed 401 "invalid_token" token_message, w)
    | some user_id ↦ answer 200 me_failure (me env user_id w)
  ]

  -- The body is decoded to its `refresh_token`.
  unfoldable pub handle_refresh : Decoded Text → World → Reply TokenPair × World
  unfolding token_failure
  handle_refresh body w = after_decode body w (λ token v.
      if is_empty token
      then (failed 400 "invalid_request" token_required_message, v)
      else answer 200 token_failure (refresh_tokens env token v))

  unfoldable pub handle_logout : Decoded Text → World → Reply (Unit {0}) × World
  unfolding token_failure
  handle_logout body w = after_decode body w (λ token v.
      if is_empty token
      then (failed 400 "invalid_request" token_required_message, v)
      else answer 200 token_failure (logout env token v))

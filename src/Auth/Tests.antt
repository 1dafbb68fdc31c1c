-- ===== src/Auth/Tests.antt =====
-- The theorems about the authentication service at concrete inputs.
use quantsim.Prelude.{
  ℕ, ◌+◌, ◌<◌, ◌≡◌, ◌↔◌, refl, true, false, none, some, [], ◌∷◌, ltb, if◌then◌else◌, arith,
}
use quantsim.Prelude.Text.{Text, to_lower, trim_space}
use quantsim.Auth.Types.{User, TokenPair, ok, err, err_token_invalid}
use quantsim.Auth.Validate.{normalize_email, validate_registration}
use quantsim.Auth.Validate.Accepts.{IsRegistrable, validate_registration_exact}
use quantsim.Auth.World.{World, refresh, ticked}
use quantsim.Auth.Tokens.{claims_of, validate_token, require_auth}
use quantsim.Auth.Service.{
  register, login, refresh_tokens, logout, issue_token_pair, registers, logs_in, logs_out, run,
}
use quantsim.Auth.Service.Registered.{IsRegistered}
use quantsim.Auth.Service.Accounts.{IsConsistent, run-IsConsistent}
use quantsim.Auth.Service.Uniform.{Authentic, spent}
use quantsim.Auth.Service.Access.{register-login}
use quantsim.Auth.Service.Revoked.{logout-refresh}
use quantsim.Auth.Service.Issued.{issue_token_pair-Apart}
use quantsim.Auth.Handler.{
  decoded, failed, internal, credentials_message, answer, login_failure, handle_login,
}
use quantsim.Auth.Handler.Statuses.{handle_login_uniform}
use quantsim.Auth.Toy.{
  ascii, far, claims_at, toy, ann, again, fresh, registered, toy-IsJwt, toy-IsRegular, toy-IsBcrypt,
  toy-IsLowered,
}

validate_registration_exact_example :
    (validate_registration ascii toy.parse_address [] ann
      ≡ ok (
        to_lower ascii (trim_space ascii ann.email),
        to_lower ascii (trim_space ascii ann.username),
      ))
    ↔ (IsRegistrable ascii toy.parse_address []
          (to_lower ascii (trim_space ascii ann.email))
          (to_lower ascii (trim_space ascii ann.username))
          ann.password
        × ◌≡◌ {A = Text × Text}
            (
              to_lower ascii (trim_space ascii ann.email),
              to_lower ascii (trim_space ascii ann.username),
            )
            (
              to_lower ascii (trim_space ascii ann.email),
              to_lower ascii (trim_space ascii ann.username),
            ))
validate_registration_exact_example =
    validate_registration_exact ascii toy.parse_address [] ann
      (to_lower ascii (trim_space ascii ann.email)) (to_lower ascii (trim_space ascii ann.username))

run-IsConsistent_example :
    IsConsistent toy (run toy (registers ann ∷ registers ann ∷ logs_in again ∷ []) fresh).db
run-IsConsistent_example =
    run-IsConsistent toy (registers ann ∷ registers ann ∷ logs_in again ∷ []) fresh
      (record { emails = tt; usernames = tt; ids = tt; funded = refl })

abbrev pair : TokenPair
pair = record {
  access_token = 1 ∷ 0 ∷ 5 ∷ 2 ∷ [];
  refresh_token = 1 ∷ 1 ∷ 6 ∷ 2 ∷ [];
  expires_in = 900;
}

same_address : normalize_email ascii again.email ≡ normalize_email ascii ann.email
unfolding normalize_email to_lower trim_space
same_address = refl

register-login_example :
    let w' = run toy (registers ann ∷ []) (register toy ann fresh).1 in
    (user : User) × (IsRegistered toy ann fresh user
      × (toy.fails w'.tick ≡ false
          → login toy again w' ≡ issue_token_pair toy user.id (spent toy w')))
register-login_example =
    register-login toy ann again fresh pair (registers ann ∷ []) toy-IsBcrypt toy-IsLowered
      registered same_address refl

handle_login_uniform_example :
    (toy.fails fresh.tick ≡ true
      → handle_login toy (decoded again) fresh ≡ (internal, ticked fresh))
    × (toy.fails fresh.tick ≡ false
        → ((user : User)
            → Authentic toy fresh.db again user
            → handle_login toy (decoded again) fresh
              ≡ answer 200 login_failure (issue_token_pair toy user.id (spent toy fresh)))
          × (¬ ((user : User) × Authentic toy fresh.db again user)
              → handle_login toy (decoded again) fresh
                ≡ (failed 401 "invalid_credentials" credentials_message, spent toy fresh)))
handle_login_uniform_example = handle_login_uniform toy again fresh

issued : (issue_token_pair toy 2 (record fresh { tick = 5 })).0 ≡ ok pair
unfolding issue_token_pair claims_of
issued = refl

issue_token_pair-Apart_example :
    ((now : ℕ)
      → require_auth toy (some pair.access_token) now
        ≡ (if ltb now far then some (2 ∷ []) else none))
    × (((now : ℕ) → require_auth toy (some pair.refresh_token) now ≡ none)
        × (((v : World)
              → refresh_tokens toy pair.access_token v ≡ (err err_token_invalid, ticked v))
            × ((v : World) → logout toy pair.access_token v ≡ (err err_token_invalid, ticked v))))
issue_token_pair-Apart_example =
    issue_token_pair-Apart toy toy-IsJwt 2 (record fresh { tick = 5 }) pair issued

-- The refresh token of that pair
abbrev token : Text
token = 1 ∷ 1 ∷ 6 ∷ 2 ∷ []

accepted : validate_token toy 0 token ≡ some (claims_at refresh 6 2)
unfolding validate_token
accepted = refl

signed_out : (logout toy token fresh).0 ≡ ok tt
unfolding logout
signed_out = refl

steady :
    let w' = run toy (logs_out token ∷ logs_in again ∷ []) (logout toy token fresh).1 in
    w'.tick < far → w'.tick + 1 < far
unfolding run logout login
steady h = omega arith

logout-refresh_example :
    (refresh_tokens toy token
      (run toy (logs_out token ∷ logs_in again ∷ []) (logout toy token fresh).1)).0
    ≡ err err_token_invalid
logout-refresh_example =
    logout-refresh toy toy-IsJwt toy-IsRegular (claims_at refresh 6 2) token
      (logs_out token ∷ logs_in again ∷ []) fresh accepted signed_out refl refl steady

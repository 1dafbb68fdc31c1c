-- ===== src/Auth/Types.antt =====
-- The data and the sentinel errors of the authentication service
-- (services/auth/internal/service/types.go, errors.go, validate.go).
use quantsim.Prelude.{ℕ}
use quantsim.Prelude.Text.{Text}

-- The messages that `ErrInvalidInput` is wrapped with, one for each rule.
pub data Rule : Type 0 where
  email_required : Rule
  email_too_long : Rule
  email_malformed : Rule
  username_required : Rule
  username_length : Rule
  username_charset : Rule
  password_required : Rule
  password_too_short : Rule
  password_over_bytes : Rule
  password_common : Rule
  password_contextual : Rule
  password_trivial : Rule

-- `err_other` is any error without a sentinel: of the database, of bcrypt, of the signer.
pub data Error : Type 0 where
  err_invalid_input : Rule → Error
  err_duplicate_user : Error
  err_invalid_credentials : Error
  err_token_invalid : Error
  err_user_not_found : Error
  err_other : Error

pub data Result (A : Type 0) : Type 0 where
  ok : A → Result A
  err : Error → Result A

pub record RegisterRequest : Type 0 where
  pub email : Text
  pub username : Text
  pub password : Text

pub record LoginRequest : Type 0 where
  pub email : Text
  pub password : Text

-- `User` with its hash, and the profile that `Me` makes of it.
pub record User : Type 0 where
  pub id : ℕ
  pub email : Text
  pub username : Text
  pub hash : Text
  pub created_at : ℕ
  pub updated_at : ℕ

pub record MeResponse : Type 0 where
  pub id : ℕ
  pub email : Text
  pub username : Text
  pub created_at : ℕ
  pub updated_at : ℕ

pub record TokenPair : Type 0 where
  pub access_token : Text
  pub refresh_token : Text
  pub expires_in : ℕ

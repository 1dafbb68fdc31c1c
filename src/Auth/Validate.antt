-- ===== src/Auth/Validate.antt =====
-- The rules of registration (services/auth/internal/service/validate.go). `parse_address` is
-- `mail.ParseAddress` followed by `.Address`, `none` being its error.
pub mod Accepts
use quantsim.Prelude.{
  ℕ, Bool, true, false, ◌||◌, ◌&&◌, not, Option, none, some, List, [], ◌∷◌, if◌then◌else◌, ltb, leb,
  ◌==◌, length,
}
use quantsim.Prelude.Text.{Text, Unicode, text_eq, is_empty, trim_space, to_lower, byte_len}
use quantsim.Auth.Types.{
  Rule, email_required, email_too_long, email_malformed, username_required, username_length,
  username_charset, password_required, password_too_short, password_over_bytes, err_invalid_input,
  Result, ok, err, RegisterRequest,
}
use quantsim.Auth.Blocklist.{check_blocklist}

abbrev pub min_password_runes : ℕ
min_password_runes = 15

abbrev pub max_password_bytes : ℕ
max_password_bytes = 72

abbrev pub max_email_bytes : ℕ
max_email_bytes = 254

abbrev pub min_username_runes : ℕ
min_username_runes = 3

abbrev pub max_username_runes : ℕ
max_username_runes = 30

-- The `switch` over one character of a username: a-z, 0-9, "_" or "-"
abbrev username_rune : ℕ → Bool
username_rune r = (leb 97 r && leb r 122) || ((leb 48 r && leb r 57) || (r == 95 || r == 45))

charset_ok : Text → Bool
charset_ok [] = true
charset_ok (r ∷ rs) = let rest = charset_ok rs in if username_rune r then rest else false

validate_username : Text → Option Rule
unfolding charset_ok
validate_username username =
    if is_empty username
    then some username_required
    else if ltb (length username) min_username_runes || ltb max_username_runes (length username)
    then some username_length
    else if charset_ok username
    then none
    else some username_charset

-- `err != nil || addr.Address != email`
abbrev reads_as : Option Text → Text → Bool
reads_as none email = false
reads_as (some address) email = text_eq address email

-- `if err != nil { return err }`, and else the rest
abbrev unless : {A : Type 0} → Option Rule → Result A → Result A
unless none rest = rest
unless (some rule) rest = err (err_invalid_input rule)

module _ (u : Unicode) where
  unfoldable pub normalize_email : Text → Text
  normalize_email email = to_lower u (trim_space u email)

  unfoldable pub normalize_username : Text → Text
  normalize_username username = to_lower u (trim_space u username)

  validate_email : (Text → Option Text) → Text → Option Rule
  validate_email parse_address email =
      if is_empty email
      then some email_required
      else if ltb max_email_bytes (byte_len u email)
      then some email_too_long
      else if reads_as (parse_address email) email
      then none
      else some email_malformed

  validate_password : List Text → Text → Text → Text → Option Rule
  validate_password common password email username =
      if is_empty password
      then some password_required
      else if ltb (length password) min_password_runes
      then some password_too_short
      else if ltb max_password_bytes (byte_len u password)
      then some password_over_bytes
      else check_blocklist u common password email username

  unfoldable pub validate_registration :
      (Text → Option Text) → List Text → RegisterRequest → Result (Text × Text)
  unfolding normalize_email normalize_username validate_email validate_username validate_password
  validate_registration parse_address common req =
      let email = normalize_email req.email in
      let username = normalize_username req.username in
      unless (validate_email parse_address email) (
        unless (validate_username username)
          (unless (validate_password common req.password email username) (ok (email, username))))

-- ===== src/Auth/Validate/Accepts.antt =====
-- What registration accepts, described without the order of the checks.
use quantsim.Prelude.{
  ℕ, ◌≤◌, ◌≡◌, ◌↔◌, ◌⊎◌, refl, ap, true, false, Option, none, some, List, [], ◌∷◌, All, arith,
  length,
}
use quantsim.Prelude.Text.{Text, Unicode, text_eq_iff, is_empty, byte_len, trim_space, to_lower}
use quantsim.Auth.Types.{Rule, ok, err, RegisterRequest}
use quantsim.Auth.Blocklist.Weak.{IsUnguessable, check_blocklist_iff}
use quantsim.Auth.Validate.{
  min_password_runes, max_password_bytes, max_email_bytes, min_username_runes, max_username_runes,
  charset_ok, validate_username, reads_as, normalize_email, normalize_username, validate_email,
  validate_password, unless, validate_registration,
}

-- A lower-case letter of ASCII, a digit, "_" (95) or "-" (45)
abbrev pub IsNameRune : ℕ → Type 0
IsNameRune r = ((97 ≤ r) × (r ≤ 122)) ⊎ (((48 ≤ r) × (r ≤ 57)) ⊎ ((r ≡ 95) ⊎ (r ≡ 45)))

module _ (u : Unicode) (parse_address : Text → Option Text) (common : List Text) where
  -- A registration that keeps the rules, in the normal form of its address and name.
  pub record IsRegistrable (email username password : Text) : Type 0 where
    pub addressed : parse_address email ≡ some email
    pub present : is_empty email ≡ false
    pub short : byte_len u email ≤ 254
    pub named_at_least : 3 ≤ length username
    pub named_at_most : length username ≤ 30
    pub charset : All IsNameRune username
    pub long : 15 ≤ length password
    pub hashable : byte_len u password ≤ 72
    pub unguessable : IsUnguessable u common password email username

charset_iff : (s : Text) → (charset_ok s ≡ true) ↔ All IsNameRune s
unfolding charset_ok
charset_iff [] = (λ e. tt, λ h. refl)
charset_iff (r ∷ rs) = (
  λ e. (ground arith, (charset_iff rs).0 (ground arith)),
  λ h. ground (arith, h.0, (charset_iff rs).1 h.1),
)

validate_username_iff :
    (s : Text)
    → (validate_username s ≡ none)
      ↔ ((min_username_runes ≤ length s) × ((length s ≤ max_username_runes) × All IsNameRune s))
unfolding validate_username
validate_username_iff [] = (λ e. cc e, λ h. ground (arith, h.0))
validate_username_iff (c ∷ s) = (
  λ e. (ground arith, (ground arith, (charset_iff (c ∷ s)).0 (ground arith))),
  λ h. ground (arith, h.0, h.1.0, (charset_iff (c ∷ s)).1 h.1.1),
)

reads_as_iff : (o : Option Text) (s : Text) → (reads_as o s ≡ true) ↔ (o ≡ some s)
reads_as_iff none s = (λ e. cc e, λ e. cc e)
reads_as_iff (some t) s = ground (arith, text_eq_iff t s)

unless_iff :
    (a b c : Option Rule) (x y : Text × Text)
    → (unless a (unless b (unless c (ok x))) ≡ ok y)
      ↔ ((a ≡ none) × ((b ≡ none) × ((c ≡ none) × (x ≡ y))))
unless_iff none none none x y =
    (λ e. (refl, (refl, (refl, ap (λ r. elim r [ ok z ↦ z | err z ↦ x ]) e))), λ h. ap ok h.1.1.1)
unless_iff none none (some r) x y = (λ e. cc e, λ h. cc h.1.1.0)
unless_iff none (some r) c x y = (λ e. cc e, λ h. cc h.1.0)
unless_iff (some r) b c x y = (λ e. cc e, λ h. cc h.0)

module _ (u : Unicode) (parse_address : Text → Option Text) (common : List Text) where
  validate_email_iff :
      (s : Text)
      → (validate_email u parse_address s ≡ none)
        ↔ ((parse_address s ≡ some s) × ((is_empty s ≡ false) × (byte_len u s ≤ max_email_bytes)))
  unfolding validate_email
  validate_email_iff s = ground (arith, reads_as_iff (parse_address s) s)

  validate_password_iff :
      (s email username : Text)
      → (validate_password u common s email username ≡ none) ↔ (
          (min_password_runes ≤ length s)
          × ((byte_len u s ≤ max_password_bytes) × IsUnguessable u common s email username))
  unfolding validate_password
  validate_password_iff [] email username = (λ e. cc e, λ h. ground (arith, h.0))
  validate_password_iff (a ∷ []) email username = (λ e. ground arith, λ h. ground (arith, h.0))
  validate_password_iff (a ∷ b ∷ s) email username =
      let rest = check_blocklist_iff u common a b s email username in
      (
        λ e. (ground arith, (ground arith, rest.0 (ground arith))),
        λ h. ground (arith, h.0, h.1.0, rest.1 h.1.1),
      )

  -- A registration is accepted exactly when it keeps every rule in its normal form, the address and the
  -- name without the spaces around them and in lower case, and that form is what is stored. The rules
  -- are: an address that the parser reads as itself, of at most 254 bytes; a name of 3 to 30 characters
  -- out of a-z, 0-9, "_" and "-"; a password of at least 15 characters and at most 72 bytes that is not
  -- on the list of common ones, contains neither "quantsim" nor "trading" nor the name nor the part of
  -- the address before its last "@" (if that part has 3 characters), is not one character repeated and
  -- is not a run of neighbouring characters.
  pub validate_registration_exact :
      (req : RegisterRequest) (email username : Text)
      → (validate_registration u parse_address common req ≡ ok (email, username)) ↔ (
          IsRegistrable u parse_address common
            (to_lower u (trim_space u req.email))
            (to_lower u (trim_space u req.username))
            req.password
          × ◌≡◌ {A = Text × Text}
              (to_lower u (trim_space u req.email), to_lower u (trim_space u req.username))
              (email, username))
  unfolding validate_registration normalize_email normalize_username
  validate_registration_exact req email username =
      let email' = to_lower u (trim_space u req.email) in
      let username' = to_lower u (trim_space u req.username) in
      let chain =
        unless_iff (validate_email u parse_address email') (validate_username username')
          (validate_password u common req.password email' username') (email', username')
          (email, username) in
      let first = validate_email_iff email' in
      let second = validate_username_iff username' in
      let third = validate_password_iff req.password email' username' in
      (
        λ e.
            let (a, (b, (c, same))) = chain.0 e in
            let (addressed, (present, short)) = first.0 a in
            let (at_least, (at_most, charset)) = second.0 b in
            let (long, (hashable, strong)) = third.0 c in
            let all : IsRegistrable u parse_address common email' username' req.password = record {
              addressed = addressed;
              present = present;
              short = short;
              named_at_least = at_least;
              named_at_most = at_most;
              charset = charset;
              long = long;
              hashable = hashable;
              unguessable = strong;
            } in
            (all, same),
        λ (r, same). chain.1 (
          first.1 (r.addressed, (r.present, r.short)),
          (
            second.1 (r.named_at_least, (r.named_at_most, r.charset)),
            (third.1 (r.long, (r.hashable, r.unguessable)), same),
          ),
        ),
      )

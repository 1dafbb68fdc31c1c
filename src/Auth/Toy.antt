-- ===== src/Auth/Toy.antt =====
-- Libraries for the tests, which do what their documentation says on tokens of four characters, and
-- one registration.
use quantsim.Prelude.{
  ℕ, ◌-◌, ◌+◌, ◌<◌, ◌≡◌, refl, sym, ap, ◌∙◌, Bool, false, ◌&&◌, not, Option, none, some, [], ◌∷◌,
  ◌==◌, leb, ltb, if◌then◌else◌, arith,
}
use quantsim.Prelude.Int.{pos_part}
use quantsim.Prelude.Text.{
  Text, Unicode, text_eq, text_eq_iff, is_empty, to_lower, trim_space, byte_len,
}
use quantsim.Auth.Types.{RegisterRequest, LoginRequest, ok}
use quantsim.Auth.Blocklist.{check_blocklist}
use quantsim.Auth.Validate.{validate_registration}
use quantsim.Auth.World.{World, Env, Claims, TokenType, access, refresh, other_type, hashed}
use quantsim.Auth.Tokens.{claims_of, key_for, validate_token, IsJwt}
use quantsim.Auth.Store.{new_user}
use quantsim.Auth.Service.{register}
use quantsim.Auth.Service.Access.{IsBcrypt, IsLowered}
use quantsim.Auth.Service.Denied.{IsRegular}

abbrev pub ascii : Unicode
ascii = record {
  upper = λ c. if leb 97 c && leb c 122 then c - 32 else c;
  lower = λ c. if leb 65 c && leb c 90 then c + 32 else c;
  is_space = λ c. c == 32;
  width = λ c. 1;
}

-- Every token of the tests expires at one instant.
abbrev pub far : ℕ
far = 1_000_000

abbrev pub claims_at : TokenType → ℕ → ℕ → Claims
claims_at kind i u = record {
  token_type = kind;
  id = i ∷ [];
  subject = u ∷ [];
  issued_at = far;
  expires_at = far;
}

-- 1, the kind, the jti and the subject
abbrev signed_as : ℕ → Text → Text → Option Text
signed_as kind (i ∷ []) (u ∷ []) = some (1 ∷ kind ∷ i ∷ u ∷ [])
signed_as kind [] subject = none
signed_as kind (i ∷ j ∷ id) subject = none
signed_as kind (i ∷ []) [] = none
signed_as kind (i ∷ []) (u ∷ v ∷ s) = none

abbrev sign_kind : TokenType → Text → Text → Option Text
sign_kind access = signed_as 0
sign_kind refresh = signed_as 1
sign_kind (other_type t) = λ id subject. none

abbrev kind_of : ℕ → TokenType
kind_of n = if n == 0 then access else refresh

abbrev read : Text → Option Claims
read (k ∷ kind ∷ i ∷ u ∷ []) = some (claims_at (kind_of kind) i u)
read _ = none

abbrev read_at : ℕ → Option Claims → Option Claims
read_at now none = none
read_at now (some c) = if ltb now far then some c else none

abbrev keyed : Option Text → ℕ → Text → Option Claims
keyed none now t = none
keyed (some k) now t = read_at now (read t)

abbrev dated : ℕ → ℕ → Option Text → Option Text
dated issued expires token = if issued == far && expires == far then token else none

abbrev salted : Text → Text → Bool
salted [] password = false
salted (salt ∷ h) password = text_eq h password

-- Calls of the outside never fail, an instant passes between two of them, and each has its own UUID.
abbrev pub toy : Env
toy = record {
  unicode = ascii;
  parse_address = λ s. some s;
  common = [];
  secret = 1 ∷ [];
  fails = λ n. false;
  clock = λ n. n;
  uuid = λ n. n;
  print_uuid = λ n. n ∷ [];
  parse_uuid = λ s. elim s [ [] ↦ none | n ∷ rest ↦ some n ];
  numeric_date = λ t. far;
  sign = λ k c. dated c.issued_at c.expires_at (sign_kind c.token_type c.id c.subject);
  is_hmac = λ t. not (is_empty t);
  parse = keyed;
  hash = λ salt password. hashed (salt ∷ password);
  matches = salted;
  dummy_hash = [];
  lower = λ s. s;
  keeps = λ ttl. pos_part ttl;
}

-- " Ann@x", "Ann_1" and a passphrase of 15 characters
abbrev pub ann : RegisterRequest
ann = record {
  email = 32 ∷ 65 ∷ 110 ∷ 110 ∷ 64 ∷ 120 ∷ [];
  username = 65 ∷ 110 ∷ 110 ∷ 95 ∷ 49 ∷ [];
  password =
      99 ∷ 111 ∷ 114 ∷ 114 ∷ 101 ∷ 99 ∷ 116 ∷ 32 ∷ 104 ∷ 111 ∷ 114 ∷ 115 ∷ 101 ∷ 32 ∷ 98 ∷ [];
}

-- "ann@X" with the same passphrase
abbrev pub again : LoginRequest
again = record { email = 97 ∷ 110 ∷ 110 ∷ 64 ∷ 88 ∷ []; password = ann.password }

abbrev pub fresh : World
fresh = record { db = record { users = []; accounts = [] }; denied = []; tick = 0; comparisons = 0 }

pub registered :
    (register toy ann fresh).0
    ≡ ok (record {
      access_token = 1 ∷ 0 ∷ 5 ∷ 2 ∷ [];
      refresh_token = 1 ∷ 1 ∷ 6 ∷ 2 ∷ [];
      expires_in = 900;
    })
unfolding register validate_registration check_blocklist to_lower trim_space byte_len text_eq
    claims_of new_user
registered = refl

signed_as_lem :
    (n : ℕ) (id subject t : Text)
    → signed_as n id subject ≡ some t
    → (i : ℕ) × (u : ℕ) × ((id ≡ i ∷ []) × ((subject ≡ u ∷ []) × (1 ∷ n ∷ i ∷ u ∷ [] ≡ t)))
signed_as_lem n (i ∷ []) (u ∷ []) t e = (i, u, (refl, (refl, cc e)))
signed_as_lem n [] subject t e = cc e
signed_as_lem n (i ∷ j ∷ id) subject t e = cc e
signed_as_lem n (i ∷ []) [] t e = cc e
signed_as_lem n (i ∷ []) (u ∷ v ∷ s) t e = cc e

-- What the tests sign is read back.
read_signed :
    (kind : TokenType) (id subject t : Text) (issued expires : ℕ)
    → dated issued expires (sign_kind kind id subject) ≡ some t
    → (read t
        ≡ some (record {
          token_type = kind;
          id = id;
          subject = subject;
          issued_at = issued;
          expires_at = expires;
        }))
      × ((is_empty t ≡ false) × (expires ≡ far))
read_signed access id subject t issued expires e =
    let (i, u, (one, (two, three))) = signed_as_lem 0 id subject t (ground arith) in
    let at : issued ≡ far = ground arith in
    let until : expires ≡ far = ground arith in
    rw⁻¹ three (rw (one, two, at, until) (refl, (refl, refl)))
read_signed refresh id subject t issued expires e =
    let (i, u, (one, (two, three))) = signed_as_lem 1 id subject t (ground arith) in
    let at : issued ≡ far = ground arith in
    let until : expires ≡ far = ground arith in
    rw⁻¹ three (rw (one, two, at, until) (refl, (refl, refl)))
read_signed (other_type s) id subject t issued expires e = ground arith

read-far : (t : Text) (c : Claims) → read t ≡ some c → far ≡ c.expires_at
read-far [] c e = cc e
read-far (k ∷ []) c e = cc e
read-far (k ∷ n ∷ []) c e = cc e
read-far (k ∷ n ∷ i ∷ []) c e = cc e
read-far (k ∷ n ∷ i ∷ u ∷ []) c e = ap (λ o. elim o [ none ↦ far | some d ↦ d.expires_at ]) e
read-far (k ∷ n ∷ i ∷ u ∷ v ∷ t) c e = cc e

read_at_lem :
    (now : ℕ) (o : Option Claims) (c : Claims) → read_at now o ≡ some c → (o ≡ some c) × (now < far)
read_at_lem now none c e = cc e
read_at_lem now (some d) c e = (ground arith, ground arith)

keyed_lem :
    (k : Option Text) (now : ℕ) (t : Text) (c : Claims)
    → keyed k now t ≡ some c
    → (read t ≡ some c) × (now < far)
keyed_lem none now t c e = cc e
keyed_lem (some k) now t c e = read_at_lem now (read t) c e

pub toy-IsJwt : IsJwt toy
toy-IsJwt = record {
  reads = λ k t c now e.
      let (is, (filled, until)) =
        read_signed c.token_type c.id c.subject t c.issued_at c.expires_at e in
      rw (is, until) refl;
  unexpired =
      λ k now t c e. let (is, soon) = keyed_lem k now t c e in omega (arith, soon, read-far t c is);
  constant = λ k now later t c d e h.
      let one = (keyed_lem k now t c e).0 in let two = (keyed_lem k later t d h).0 in cc (one, two);
  hmac = λ k t c e.
      let (is, (filled, until)) =
        read_signed c.token_type c.id c.subject t c.issued_at c.expires_at e in
      rw filled refl;
  filled = λ k t c e. (read_signed c.token_type c.id c.subject t c.issued_at c.expires_at e).1.0;
}

validated_far :
    (now : ℕ) (t : Text) (c : Claims) → validate_token toy now t ≡ some c → far ≡ c.expires_at
unfolding validate_token key_for
validated_far now t c e = read-far t c (keyed_lem (key_for toy t) now t c e).0

pub toy-IsRegular : IsRegular toy
toy-IsRegular = record {
  monotone = λ m n h. h;
  keeps = λ ttl. omega arith;
  jti = λ m n s t c d e h same. sym (validated_far m s c e) ∙ validated_far n t d h;
}

pub toy-IsBcrypt : IsBcrypt toy
toy-IsBcrypt salt password h e =
    let same : salt ∷ password ≡ h = cc e in rw⁻¹ same ((text_eq_iff password password).1 refl)

pub toy-IsLowered : IsLowered toy
toy-IsLowered email = refl

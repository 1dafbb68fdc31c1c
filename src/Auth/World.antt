-- ===== src/Auth/World.antt =====
-- What the authentication service runs against: the tables `users` and `accounts`
-- (infra/migrations/001, 002, 004), the denylist in Redis, and the libraries it calls. A call of
-- the outside takes the next tick, which says what it yields: its instant, its UUID, its failure.
use quantsim.Prelude.{ℕ, ◌+◌, ◌≡◌, refl, ap, Bool, Option, List}
use quantsim.Prelude.Int.{ℤ}
use quantsim.Prelude.Map.{Map}
use quantsim.Prelude.Text.{Text, Unicode}
use quantsim.Auth.Types.{User, Error, Result, ok, err}

pub record Account : Type 0 where
  pub user_id : ℕ
  pub balance : ℕ

pub record Db : Type 0 where
  pub users : List User
  pub accounts : List Account

-- `denied` gives the instant at which Redis forgets a key; `comparisons` counts the rounds of bcrypt
-- that were spent on comparing.
pub record World : Type 0 where
  pub db : Db
  pub denied : Map Text ℕ
  pub tick : ℕ
  pub comparisons : ℕ

pub data TokenType : Type 0 where
  access : TokenType
  refresh : TokenType
  other_type : Text → TokenType

-- `Claims` (pkg/auth/jwt.go)
pub record Claims : Type 0 where
  pub token_type : TokenType
  pub id : Text
  pub subject : Text
  pub issued_at : ℕ
  pub expires_at : ℕ

-- `bcrypt.GenerateFromPassword`
pub data Hashed : Type 0 where
  hashed : Text → Hashed
  too_long : Hashed
  no_entropy : Hashed

-- The libraries and servers. `parse` is `jwt.ParseWithClaims` with what the key function returned,
-- at an instant; `lower` is the database's lower(); `keeps` is for how long Redis keeps a key that
-- was set with a time to live.
pub record Env : Type 0 where
  pub unicode : Unicode
  pub parse_address : Text → Option Text
  pub common : List Text
  pub secret : Text
  pub fails : ℕ → Bool
  pub clock : ℕ → ℕ
  pub uuid : ℕ → ℕ
  pub print_uuid : ℕ → Text
  pub parse_uuid : Text → Option ℕ
  pub numeric_date : ℕ → ℕ
  pub sign : Text → Claims → Option Text
  pub is_hmac : Text → Bool
  pub parse : Option Text → ℕ → Text → Option Claims
  pub hash : ℕ → Text → Hashed
  pub matches : Text → Text → Bool
  pub dummy_hash : Text
  pub lower : Text → Text
  pub keeps : ℤ → ℕ

-- A call of the outside has been made.
unfoldable pub ticked : World → World
ticked w = record w { tick = w.tick + 1 }

abbrev pub Act : Type 0 → Type 0
Act A = World → Result A × World

infixl 5 ◌>>=◌
abbrev pub ◌>>=◌ : {A B : Type 0} → Act A → (A → Act B) → Act B
◌>>=◌ m g w = let (r, w') = m w in elim r [ ok a ↦ g a w' | err e ↦ (err e, w') ]

abbrev pub pure : {A : Type 0} → A → Act A
pure a w = (ok a, w)

abbrev pub raise : {A : Type 0} → Error → Act A
raise e w = (err e, w)

-- How a chain goes on from what its first step left.
abbrev continue : {A B : Type 0} → (A → Act B) → Result A × World → Result B × World
continue g o = elim o.0 [ ok a ↦ g a o.1 | err e ↦ (err e, o.1) ]

post_of :
    {A B : Type 0} (P : Result B → World → Type 0) (g : A → Act B) (o : Result A × World)
    → ((e : Error) → o.0 ≡ err e → P (err e) o.1)
    → ((a : A) → o.0 ≡ ok a → P (g a o.1).0 (g a o.1).1)
    → P (continue g o).0 (continue g o).1
post_of P g (ok a, w) raised returned = returned a refl
post_of P g (err e, w) raised returned = raised e refl

-- To prove a postcondition of a chain, prove it where the first step raises, and of the rest where
-- it returns.
pub >>=-post :
    {A B : Type 0} (P : Result B → World → Type 0) (m : Act A) (g : A → Act B) (w : World)
    → ((e : Error) → (m w).0 ≡ err e → P (err e) (m w).1)
    → ((a : A) → (m w).0 ≡ ok a → P (g a (m w).1).0 (g a (m w).1).1)
    → P ((m >>= g) w).0 ((m >>= g) w).1
>>=-post P m g w raised returned = post_of P g (m w) raised returned

pub bind_err :
    {A B : Type 0} (m : Act A) (g : A → Act B) (w w' : World) (e : Error)
    → m w ≡ (err e, w')
    → (m >>= g) w ≡ (err e, w')
bind_err m g w w' e same = ap (continue g) same

-- ===== src/Auth/Store.antt =====
-- The users table and the denylist (services/auth/internal/store/user_store.go,
-- redis_token_store.go). The index on lower(email), the index on lower(username) and the primary key
-- raise the same unique violation.
pub mod Grows
use quantsim.Prelude.{
  ℕ, ◌+◌, Bool, true, false, ◌||◌, Option, none, some, List, [], ◌∷◌, ◌++◌, if◌then◌else◌, ltb,
  ◌==◌,
}
use quantsim.Prelude.Int.{ℤ}
use quantsim.Prelude.Map.{lookup, insert}
use quantsim.Prelude.Text.{Text, text_eq, text_keys}
use quantsim.Auth.Types.{User, err_duplicate_user, err_user_not_found, err_other, Result, ok, err}
use quantsim.Auth.World.{Account, Db, World, Env, ticked, Act}

module _ (env : Env) where
  -- A row that the new one would collide with on one of the unique indexes
  unfoldable pub collides : User → User → Bool
  collides new old =
      old.id == new.id
      || (text_eq (env.lower old.email) (env.lower new.email)
          || text_eq (env.lower old.username) (env.lower new.username))

  unfoldable pub taken : User → List User → Bool
  unfolding collides
  taken new [] = false
  taken new (old ∷ rows) = collides new old || taken new rows

  -- The row with the defaults of the table
  unfoldable pub new_user : ℕ → Text → Text → Text → User
  new_user tick email username hash = record {
    id = env.uuid tick;
    email = email;
    username = username;
    hash = hash;
    created_at = env.clock tick;
    updated_at = env.clock tick;
  }

  -- The second statement and the commit, over what the transaction sees
  insert_account : User → ℕ → Act ℕ
  unfolding ticked
  insert_account user balance w =
      let w1 = ticked w in
      let w2 = ticked w1 in
      if env.fails w.tick
      then (err err_other, w1)
      else if env.fails w1.tick
      then (err err_other, w2)
      else (
        ok user.id,
        record w2 {
          db = record {
            users = user ∷ w.db.users;
            accounts = record { user_id = user.id; balance = balance } ∷ w.db.accounts;
          };
        },
      )

  -- Begin, then the two inserts, then the commit; what fails is rolled back.
  unfoldable pub create_user_with_account : Text → Text → Text → ℕ → Act ℕ
  unfolding ticked taken insert_account
  create_user_with_account email username hash balance w =
      let w1 = ticked w in
      let w2 = ticked w1 in
      let user = new_user w1.tick email username hash in
      if env.fails w.tick
      then (err err_other, w1)
      else if env.fails w1.tick
      then (err err_other, w2)
      else if taken user w.db.users
      then (err err_duplicate_user, w2)
      else insert_account user balance w2

  unfoldable pub find_email : Text → List User → Option User
  find_email email [] = none
  find_email email (row ∷ rows) =
      let rest = find_email email rows in
      if text_eq (env.lower row.email) email then some row else rest

  unfoldable pub find_id : ℕ → List User → Option User
  find_id id [] = none
  find_id id (row ∷ rows) = let rest = find_id id rows in if row.id == id then some row else rest

  -- `QueryRow(…).Scan(…)` of a look-up: no row is `ErrUserNotFound`.
  abbrev answer : Option User → World → Result User × World
  answer none w = (err err_user_not_found, w)
  answer (some row) w = (ok row, w)

  unfoldable pub get_user_by_email : Text → Act User
  unfolding ticked find_email
  get_user_by_email email w =
      if env.fails w.tick
      then (err err_other, ticked w)
      else answer (find_email email w.db.users) (ticked w)

  -- This query does not select the hash.
  unfoldable pub get_user_by_id : ℕ → Act User
  unfolding ticked find_id
  get_user_by_id id w =
      if env.fails w.tick
      then (err err_other, ticked w)
      else answer (find_id id w.db.users) (ticked w)

  -- "revoked:" in front
  unfoldable pub revoked_key : Text → Text
  revoked_key jti = 114 ∷ 101 ∷ 118 ∷ 111 ∷ 107 ∷ 101 ∷ 100 ∷ 58 ∷ jti

  -- Whether the write succeeded
  unfoldable pub revoke : Text → ℤ → World → Bool × World
  unfolding ticked revoked_key
  revoke jti ttl w = if env.fails w.tick then (false, ticked w) else (
    true,
    record (ticked w) {
      denied = insert (revoked_key jti) (env.clock w.tick + env.keeps ttl) w.denied;
    },
  )

  -- A key is there until the instant at which it is forgotten.
  abbrev present : Option ℕ → ℕ → Bool
  present none now = false
  present (some until) now = ltb now until

  -- `none` is an error of Redis.
  unfoldable pub is_revoked : Text → World → Option Bool × World
  unfolding ticked revoked_key
  is_revoked jti w =
      if env.fails w.tick
      then (none, ticked w)
      else (some (present (lookup (revoked_key jti) w.denied) (env.clock w.tick)), ticked w)

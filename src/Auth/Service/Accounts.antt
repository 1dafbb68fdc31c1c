-- ===== src/Auth/Service/Accounts.antt =====
-- The users and the accounts under every sequence of requests.
use mathlib.Core.Path.{subst}
use quantsim.Prelude.{ℕ, ◌≡◌, ◌⊎◌, inl, inr, sym, ap, false, List, [], ◌∷◌, map, All, arith, ==_iff}
use quantsim.Prelude.Text.{text_eq_iff}
use quantsim.Auth.Types.{User}
use quantsim.Auth.World.{Db, World, Env}
use quantsim.Auth.Store.{collides, taken}
use quantsim.Auth.Store.Grows.{with_user}
use quantsim.Auth.Service.{
  Call, registers, logs_in, refreshes, logs_out, reads_profile, after, run, starting_balance,
}
use quantsim.Auth.Service.Registered.{register-Registered}
use quantsim.Auth.Service.Frame.{login-Same, refresh_tokens-Same, me-Same, logout-LoggedOut}

-- No two rows have one key.
abbrev pub Distinct {κ} : {K : Type κ} → (User → K) → List User → Type κ
Distinct key [] = Unit
Distinct key (user ∷ rows) = All (λ row. ¬ (key row ≡ key user)) rows × Distinct key rows

module _ (env : Env) where
  -- One user for an address and for a name, in whatever case they are written, one for an id, and
  -- one account for each user, in their order.
  pub record IsConsistent (db : Db) : Type 0 where
    pub emails : Distinct (λ user. env.lower user.email) db.users
    pub usernames : Distinct (λ user. env.lower user.username) db.users
    pub ids : Distinct (λ user. user.id) db.users
    pub funded : map (λ account. account.user_id) db.accounts ≡ map (λ user. user.id) db.users

  -- A new row that is not taken differs from each of the old ones in every key.
  taken_lem :
      (user : User) (rows : List User)
      → taken env user rows ≡ false
      → All (λ row. ¬ (env.lower row.email ≡ env.lower user.email)) rows
        × (All (λ row. ¬ (env.lower row.username ≡ env.lower user.username)) rows
            × All (λ row. ¬ (row.id ≡ user.id)) rows)
  unfolding taken collides
  taken_lem user [] e = (tt, (tt, tt))
  taken_lem user (row ∷ rows) e =
      let rest = taken_lem user rows (ground arith) in
      let email_iff = text_eq_iff (env.lower row.email) (env.lower user.email) in
      let name_iff = text_eq_iff (env.lower row.username) (env.lower user.username) in
      (
        (λ same. ground (arith, email_iff.1 same), rest.0),
        (
          (λ same. ground (arith, name_iff.1 same), rest.1.0),
          (λ same. ground (arith, ==_iff row.id user.id), rest.1.1),
        ),
      )

  with_user-IsConsistent :
      (user : User) (balance : ℕ) (db : Db)
      → taken env user db.users ≡ false
      → IsConsistent db
      → IsConsistent (with_user user balance db)
  with_user-IsConsistent user balance db free c =
      let (emails, (names, ids)) = taken_lem user db.users free in
      record {
        emails = (emails, c.emails);
        usernames = (names, c.usernames);
        ids = (ids, c.ids);
        funded = ap (λ rest. user.id ∷ rest) c.funded;
      }

  -- Only a registration changes the tables.
  pub after-db :
      (call : Call) (w : World)
      → ((after env call w).db ≡ w.db)
        ⊎ ((user : User) × ((taken env user w.db.users ≡ false)
              × ((after env call w).db ≡ with_user user starting_balance w.db)))
  unfolding after
  after-db (registers req) w = elim (register-Registered env req w) [
    | inl unchanged ↦ inl unchanged.1
    | inr (user, (r, (grown, others))) ↦ inr (user, (r.free, grown))
  ]
  after-db (logs_in req) w = inl (login-Same env req w).0
  after-db (refreshes token) w = inl (refresh_tokens-Same env token w).0
  after-db (logs_out token) w = inl (logout-LoggedOut env token w).0
  after-db (reads_profile id) w = inl (me-Same env id w).0

  pub after-IsConsistent :
      (call : Call) (w : World) → IsConsistent w.db → IsConsistent (after env call w).db
  after-IsConsistent call w c = elim (after-db call w) [
    | inl same ↦ subst IsConsistent (sym same) c
    | inr (user, (free, grown)) ↦
        subst IsConsistent (sym grown) (with_user-IsConsistent user starting_balance w.db free c)
  ]

  -- Whatever requests come, whichever statements, commits, hashes and signatures fail among them:
  -- no two users have one address or one name up to the case, no two have one id, and every user has
  -- exactly one account and every account a user, if that was so before the first request.
  pub run-IsConsistent :
      (calls : List Call) (w : World) → IsConsistent w.db → IsConsistent (run env calls w).db
  unfolding run
  run-IsConsistent [] w c = c
  run-IsConsistent (call ∷ calls) w c =
      run-IsConsistent calls (after env call w) (after-IsConsistent call w c)

-- ===== src/Trading/Postgres.antt =====
-- The database that the store talks to: the four tables of infra/migrations that trading writes, a
-- connection with one transaction, and statements that may fail. The server is a parameter: the
-- UUIDs and instants that its defaults give, what it keeps of a number that is written to a
-- NUMERIC(20,4) column (`none` is the overflow error), and which statements fail.
use quantsim.Prelude.{ℕ, ◌≡◌, refl, ap, ◌+◌, Bool, Option, List, if◌then◌else◌}
use quantsim.Prelude.Keys.{nat_keys}
use quantsim.Prelude.Map.{Map}
use quantsim.Prelude.Text.{Text}
use quantsim.Trading.Types.{Order, Trade, Error, err_database, Result, ok, err}

pub record Server (F : Type 0) : Type 0 where
  pub uuid : ℕ → ℕ
  pub clock : ℕ → ℕ
  pub numeric : F → Option F
  pub fails : ℕ → Bool

pub record AccountRow (F : Type 0) : Type 0 where
  pub user_id : ℕ
  pub balance : F

pub record PositionRow (F : Type 0) : Type 0 where
  pub quantity : F
  pub avg_cost : F

-- `accounts` by its key, `positions` by UNIQUE (account_id, symbol); the logs newest first.
pub record Db (F : Type 0) : Type 0 where
  pub accounts : Map ℕ (AccountRow F)
  pub positions : Map (ℕ × Text) (PositionRow F)
  pub orders : List (Order F)
  pub trades : List (Trade F)

-- What is durable, what the open transaction sees, and how many statements have been sent.
pub record Conn (F : Type 0) : Type 0 where
  pub committed : Db F
  pub working : Db F
  pub tick : ℕ

abbrev pub Sql : Type 0 → Type 0 → Type 0
Sql F A = Conn F → Result A × Conn F

infixl 5 ◌>>=◌ ◌>>◌
abbrev pub ◌>>=◌ : {F A B : Type 0} → Sql F A → (A → Sql F B) → Sql F B
◌>>=◌ m g c = let (r, c') = m c in elim r [ ok a ↦ g a c' | err e ↦ (err e, c') ]

abbrev pub ◌>>◌ : {F A B : Type 0} → Sql F A → Sql F B → Sql F B
m >> k = m >>= λ _. k

abbrev pub pure : {F A : Type 0} → A → Sql F A
pure a c = (ok a, c)

abbrev pub raise : {F A : Type 0} → Error → Sql F A
raise e c = (err e, c)

-- An `if` between two continuations.
abbrev pub choose : {F A : Type 0} → Bool → Sql F A → Sql F A → Sql F A
choose b m k c = if b then m c else k c

module _ {F : Type 0} (srv : Server F) where
  -- One statement, given what it does to the tables at its tick.
  unfoldable pub statement : {A : Type 0} → (ℕ → Db F → Result A × Db F) → Sql F A
  statement run c =
      if srv.fails c.tick
      then (err err_database, record c { tick = c.tick + 1 })
      else let (r, db) = run c.tick c.working in (r, record c { working = db; tick = c.tick + 1 })

  -- `pool.Begin`: the transaction sees what is durable.
  unfoldable pub begin_tx : Sql F (Unit {0})
  begin_tx c =
      if srv.fails c.tick
      then (err err_database, record c { tick = c.tick + 1 })
      else (ok tt, record c { working = c.committed; tick = c.tick + 1 })

  -- `tx.Commit`. A commit that fails has not happened.
  unfoldable pub commit : Sql F (Unit {0})
  commit c =
      if srv.fails c.tick
      then (err err_database, record c { tick = c.tick + 1 })
      else (ok tt, record c { committed = c.working; tick = c.tick + 1 })

-- The deferred `tx.Rollback`, a no-op once committed.
unfoldable pub rollback : {F : Type 0} → Conn F → Conn F
rollback c = record c { working = c.committed }

-- A single statement on the pool: its own transaction.
unfoldable pub autocommit : {F A : Type 0} → Sql F A → Sql F A
autocommit m c =
    let o = m (record c { working = c.committed }) in
    elim o.0 [
      | ok a ↦ (ok a, record (o.1) { committed = o.1.working })
      | err e ↦ (err e, record (o.1) { working = o.1.committed })
    ]

-- How a chain goes on from what its first step left.
abbrev continue : {F A B : Type 0} → (A → Sql F B) → Result A × Conn F → Result B × Conn F
continue g o = elim o.0 [ ok a ↦ g a o.1 | err e ↦ (err e, o.1) ]

continue-post :
    {F A B : Type 0} (P : Result B → Conn F → Type 0) (g : A → Sql F B) (o : Result A × Conn F)
    → ((e : Error) (c' : Conn F) → o ≡ (err e, c') → P (err e) c')
    → ((a : A) (c' : Conn F) → o ≡ (ok a, c') → P (g a c').0 (g a c').1)
    → P (continue g o).0 (continue g o).1
continue-post P g (ok a, c') raised returned = returned a c' refl
continue-post P g (err e, c') raised returned = raised e c' refl

-- To prove a postcondition of a chain, prove it where the first step raises, and of the rest where
-- it returns.
pub >>=-post :
    {F A B : Type 0} (P : Result B → Conn F → Type 0) (m : Sql F A) (g : A → Sql F B) (c : Conn F)
    → ((e : Error) (c' : Conn F) → m c ≡ (err e, c') → P (err e) c')
    → ((a : A) (c' : Conn F) → m c ≡ (ok a, c') → P (g a c').0 (g a c').1)
    → P ((m >>= g) c).0 ((m >>= g) c).1
>>=-post P m g c raised returned = continue-post P g (m c) raised returned

pub result-post :
    {F A : Type 0} (P : Result A → Conn F → Type 0) (o : Result A × Conn F)
    → ((e : Error) (c' : Conn F) → o ≡ (err e, c') → P (err e) c')
    → ((a : A) (c' : Conn F) → o ≡ (ok a, c') → P (ok a) c')
    → P o.0 o.1
result-post P (ok a, c') raised returned = returned a c' refl
result-post P (err e, c') raised returned = raised e c' refl

pub bind_ok :
    {F A B : Type 0} (m : Sql F A) (g : A → Sql F B) (c c' : Conn F) (a : A)
    → m c ≡ (ok a, c')
    → (m >>= g) c ≡ g a c'
bind_ok m g c c' a e = ap (continue g) e

-- What a single statement leaves durable, from how it ended.
abbrev settle : {F A : Type 0} → Result A × Conn F → Result A × Conn F
settle o = elim o.0 [
  | ok a ↦ (ok a, record (o.1) { committed = o.1.working })
  | err e ↦ (err e, record (o.1) { working = o.1.committed })
]

settle-post :
    {F A : Type 0} (P : Result A → Db F → Type 0) (o : Result A × Conn F)
    → ((e : Error) (c' : Conn F) → o ≡ (err e, c') → P (err e) c'.committed)
    → ((a : A) (c' : Conn F) → o ≡ (ok a, c') → P (ok a) c'.working)
    → P (settle o).0 (settle o).1.committed
settle-post P (ok a, c') raised returned = returned a c' refl
settle-post P (err e, c') raised returned = raised e c' refl

pub autocommit-post :
    {F A : Type 0} (P : Result A → Db F → Type 0) (m : Sql F A) (c : Conn F)
    → ((e : Error) (c' : Conn F)
        → m (record c { working = c.committed }) ≡ (err e, c')
        → P (err e) c'.committed)
    → ((a : A) (c' : Conn F)
        → m (record c { working = c.committed }) ≡ (ok a, c')
        → P (ok a) c'.working)
    → P (autocommit m c).0 (autocommit m c).1.committed
unfolding autocommit
autocommit-post P m c raised returned =
    settle-post P (m (record c { working = c.committed })) raised returned

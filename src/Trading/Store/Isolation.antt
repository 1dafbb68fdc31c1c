-- ===== src/Trading/Store/Isolation.antt =====
-- An order touches one account and one position.
use quantsim.Prelude.{ℕ, ◌≡◌, ◌≢◌, refl, inl, inr, Option-cases}
use quantsim.Prelude.Float.{Float}
use quantsim.Prelude.Keys.{nat_keys, beq_ne}
use quantsim.Prelude.Map.{Map, lookup, lookup-insert}
use quantsim.Prelude.Text.{Text}
use quantsim.Trading.Types.{
  Side, err_insufficient_balance, err_insufficient_position, ExecuteOrderParams, PlaceOrderResult,
  Result, ok, err,
}
use quantsim.Trading.Postgres.{Server, AccountRow, Db, Conn}
use quantsim.Trading.Store.{execute_order}
use quantsim.Trading.Store.Statements.{position_keys}
use quantsim.Trading.Store.Atomic.{execute_order-Settles}
use quantsim.Trading.Store.Outcome.{with_balance, Settles}

module _ {F : Type 0} ⦃f : Float F⦄ (srv : Server F) (p : ExecuteOrderParams F) where
  -- Every other account, and every other position, is as it was.
  abbrev pub Untouched : Db F → Db F → Type 0
  Untouched db db' =
      ((id : ℕ) → p.account_id ≢ id → lookup id db'.accounts ≡ lookup id db.accounts)
      × ((k : ℕ × Text)
          → (p.account_id, p.symbol) ≢ k
          → lookup k db'.positions ≡ lookup k db.positions)

  with_balance_apart :
      (id : ℕ) (b : F) (m : Map ℕ (AccountRow F))
      → p.account_id ≢ id
      → lookup id (with_balance p.account_id b m) ≡ lookup id m
  with_balance_apart id b m ne = elim (Option-cases (lookup p.account_id m)) [
    | inl gone ↦ rw (gone, with_balance)
    | inr (x, found) ↦ rw (found, with_balance) (rw lookup-insert (rw (beq_ne p.account_id id ne)))
  ]

  settled-Untouched :
      (side : Side) (db db' : Db F) (r : Result (PlaceOrderResult F))
      → Settles srv p side db r db'
      → Untouched db db'
  settled-Untouched side db db' (ok r) fill = (
    λ id ne. rw (fill.accounts) (with_balance_apart id r.balance db.accounts ne),
    λ k ne. rw (fill.positions) (rw lookup-insert (rw (beq_ne (p.account_id, p.symbol) k ne))),
  )
  settled-Untouched side db db' (err err_insufficient_balance) reject =
      rw (reject.only) (λ id ne. refl, λ k ne. refl)
  settled-Untouched side db db' (err err_insufficient_position) reject =
      rw (reject.only) (λ id ne. refl, λ k ne. refl)
  settled-Untouched side db db' (err _) same = rw same (λ id ne. refl, λ k ne. refl)

  -- An order changes no account but its own, and no position but the account's in its symbol.
  pub execute_order-Untouched :
      (c : Conn F) → Untouched c.committed (execute_order srv p c).1.committed
  execute_order-Untouched c =
      settled-Untouched p.side c.committed (execute_order srv p c).1.committed
        (execute_order srv p c).0 (execute_order-Settles srv p c)

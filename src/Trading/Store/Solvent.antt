-- ===== src/Trading/Store/Solvent.antt =====
-- No order overdraws an account or a position.
use quantsim.Prelude.{ℕ, ◌≡◌, ◌==◌, inl, inr, true, false, some, arith, Bool-cases, Option-cases}
use quantsim.Prelude.Float.{Float, nought, ◌≼◌, IsFinite, IsIeee}
use quantsim.Prelude.Keys.{nat_keys}
use quantsim.Prelude.Map.{Map, lookup, insert, lookup-insert}
use quantsim.Prelude.Text.{Text}
use quantsim.Trading.Types.{
  Side, buy, sell, other_side, Error, err_insufficient_balance, err_insufficient_position,
  ExecuteOrderParams, PlaceOrderResult, Result, ok, err,
}
use quantsim.Trading.Types
use quantsim.Trading.Postgres.{Server, AccountRow, PositionRow, Db, Conn}
use quantsim.Trading.Store.{execute_order}
use quantsim.Trading.Store.Statements.{held_in, position_keys, same_position}
use quantsim.Trading.Store.Atomic.{execute_order-Settles}
use quantsim.Trading.Store.Outcome.{cash_in, with_balance, Settles, Filled, Rejected}

-- What a NUMERIC(20,4) column does to a number that is not negative: it rounds it to one that is
-- not negative and finite, or refuses it.
pub record IsNumeric {F : Type 0} ⦃f : Float F⦄ (srv : Server F) : Type 0 where
  pub keeps : (x y : F) → srv.numeric x ≡ some y → nought ≼ x → (nought ≼ y) × IsFinite y

module _ {F : Type 0} ⦃f : Float F⦄ where
  abbrev pub Amount : F → Type 0
  Amount x = (nought ≼ x) × IsFinite x

  -- No balance and no position is negative.
  pub record IsSolvent (db : Db F) : Type 0 where
    pub balances : (id : ℕ) (a : AccountRow F) → lookup id db.accounts ≡ some a → Amount a.balance
    pub quantities :
        (k : ℕ × Text) (h : PositionRow F) → lookup k db.positions ≡ some h → Amount h.quantity

  module _ (srv : Server F) (ieee : IsIeee F) (col : IsNumeric srv) where
    cash_in-Amount : (db : Db F) (id : ℕ) → IsSolvent db → Amount (cash_in db id)
    cash_in-Amount db id s = elim (Option-cases (lookup id db.accounts)) [
      | inl e ↦ rw (e, cash_in) (ieee.nought_finite.0, ieee.nought_finite)
      | inr (a, e) ↦ rw (e, cash_in) (s.balances id a e)
    ]

    held_in-Amount :
        (db : Db F) (id : ℕ) (t : Text) → IsSolvent db → Amount (held_in db id t).quantity
    held_in-Amount db id t s = elim (Option-cases (lookup (id, t) db.positions)) [
      | inl e ↦ rw (e, held_in) (ieee.nought_finite.0, ieee.nought_finite)
      | inr (h, e) ↦ rw (e, held_in) (s.quantities (id, t) h e)
    ]

    module _ (p : ExecuteOrderParams F) (priced : f.lt nought p.price ≡ true)
        (sized : f.lt nought p.quantity ≡ true) where
      paid-nonneg : nought ≼ f.mul p.price p.quantity
      paid-nonneg = ieee.mul_nonneg p.price p.quantity priced sized

      bought-Amounts :
          (balance b q q' : F)
          → Amount balance
          → Amount q
          → f.lt balance (f.mul p.price p.quantity) ≡ false
          → srv.numeric (f.sub balance (f.mul p.price p.quantity)) ≡ some b
          → srv.numeric (f.add q p.quantity) ≡ some q'
          → Amount b × Amount q'
      bought-Amounts balance b q q' cash held covered eb eq =
          let number = (ieee.refl_of_le _ _ paid-nonneg).1 in
          (
            col.keeps _ _ eb (ieee.sub_nonneg _ _ cash.1 number covered),
            col.keeps _ _ eq (ieee.add_nonneg _ _ held.0 (ieee.le_of_lt _ _ sized)),
          )

      Filled-Amounts :
          (side : Side) (db db' : Db F) (r : PlaceOrderResult F)
          → IsSolvent db
          → Filled srv p side db r db'
          → Amount r.balance × Amount (held_in db' p.account_id p.symbol).quantity
      Filled-Amounts buy db db' r s fill =
          bought-Amounts _ _ _ _ (cash_in-Amount db p.account_id s)
            (held_in-Amount db p.account_id p.symbol s) fill.covered fill.balance fill.held
      Filled-Amounts (other_side t) db db' r s fill =
          bought-Amounts _ _ _ _ (cash_in-Amount db p.account_id s)
            (held_in-Amount db p.account_id p.symbol s) fill.covered fill.balance fill.held
      Filled-Amounts sell db db' r s fill =
          let cash = cash_in-Amount db p.account_id s in
          let held = held_in-Amount db p.account_id p.symbol s in
          let number = (ieee.refl_of_le _ _ (ieee.le_of_lt _ _ sized)).1 in
          (
            col.keeps _ _ fill.balance (ieee.add_nonneg _ _ cash.0 paid-nonneg),
            col.keeps _ _ fill.held (ieee.sub_nonneg _ _ held.1 number fill.covered),
          )

      with_balance-Amount :
          (id : ℕ) (a : AccountRow F) (m : Map ℕ (AccountRow F)) (b : F)
          → Amount b
          → ((j : ℕ) (x : AccountRow F) → lookup j m ≡ some x → Amount x.balance)
          → lookup id (with_balance p.account_id b m) ≡ some a
          → Amount a.balance
      with_balance-Amount id a m b new old e = elim (Option-cases (lookup p.account_id m)) [
        | inl gone ↦ old id a (rw (gone, with_balance) at e)
        | inr (x, found) ↦
            let written : AccountRow F = record x { balance = b } in
            let e' : lookup id (insert p.account_id written m) ≡ some a =
              rw (found, with_balance) at e in
            elim (Bool-cases (p.account_id == id)) [
              | inl own ↦ ground (arith, lookup-insert id p.account_id written m)
              | inr other ↦ old id a (ground (arith, lookup-insert id p.account_id written m))
            ]
      ]

      insert-Amount :
          (k : ℕ × Text) (h : PositionRow F) (m : Map (ℕ × Text) (PositionRow F))
          (new : PositionRow F)
          → Amount new.quantity
          → ((j : ℕ × Text) (x : PositionRow F) → lookup j m ≡ some x → Amount x.quantity)
          → lookup k (insert (p.account_id, p.symbol) new m) ≡ some h
          → Amount h.quantity
      insert-Amount k h m new amount old e =
          elim (Bool-cases (same_position (p.account_id, p.symbol) k)) [
            | inl own ↦ ground (arith, lookup-insert k (p.account_id, p.symbol) new m)
            | inr other ↦ old k h (ground (arith, lookup-insert k (p.account_id, p.symbol) new m))
          ]

      Rejected-IsSolvent :
          (db db' : Db F) (reason : Types.Reason)
          → IsSolvent db
          → Rejected p reason db db'
          → IsSolvent db'
      Rejected-IsSolvent db db' reason s reject =
          rw reject.only (record { balances = s.balances; quantities = s.quantities })

      pub Filled-IsSolvent :
          (side : Side) (db db' : Db F) (r : PlaceOrderResult F)
          → IsSolvent db
          → Filled srv p side db r db'
          → IsSolvent db'
      Filled-IsSolvent side db db' r s fill =
          let new = Filled-Amounts side db db' r s fill in
          record {
            balances = λ id a e.
                with_balance-Amount id a db.accounts r.balance new.0 s.balances
                  (rw fill.accounts at e);
            quantities = λ k h e.
                insert-Amount k h db.positions (held_in db' p.account_id p.symbol) new.1
                  s.quantities (rw fill.positions at e);
          }

      settled-IsSolvent :
          (side : Side) (db db' : Db F) (r : Result (PlaceOrderResult F))
          → IsSolvent db
          → Settles srv p side db r db'
          → IsSolvent db'
      settled-IsSolvent side db db' (ok r) s fill = Filled-IsSolvent side db db' r s fill
      settled-IsSolvent side db db' (err err_insufficient_balance) s reject =
          Rejected-IsSolvent db db' _ s reject
      settled-IsSolvent side db db' (err err_insufficient_position) s reject =
          Rejected-IsSolvent db db' _ s reject
      settled-IsSolvent side db db' (err _) s same = rw same s

      -- No overdraft: an order for a positive quantity at a positive price keeps every balance and
      -- every position at zero or above, whether it fills, is rejected or fails half way, if float64 keeps
      -- the laws of `IsIeee` and the columns round as `IsNumeric` says.
      pub execute_order-IsSolvent :
          (c : Conn F) → IsSolvent c.committed → IsSolvent (execute_order srv p c).1.committed
      execute_order-IsSolvent c s =
          settled-IsSolvent p.side c.committed (execute_order srv p c).1.committed
            (execute_order srv p c).0 s (execute_order-Settles srv p c)

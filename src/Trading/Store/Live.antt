-- ===== src/Trading/Store/Live.antt =====
-- With a database that works, an order ends in a fill or in a business rejection.
use quantsim.Prelude.{
  ℕ, ◌+◌, ◌≡◌, refl, ap, ◌∙◌, inl, inr, Bool, true, false, some, Bool-cases, if◌then◌else◌,
}
use quantsim.Prelude.Float.{Float}
use quantsim.Prelude.Keys.{nat_keys}
use quantsim.Prelude.Map.{lookup}
use quantsim.Trading.Types.{Side, buy, ExecuteOrderParams, PlaceOrderResult, Result, ok, err}
use quantsim.Trading.Postgres.{
  Server, AccountRow, Conn, Sql, ◌>>=◌, bind_ok, statement, begin_tx, commit,
}
use quantsim.Trading.Store.{execute_order, execute_side, execute_buy, reject_within}
use quantsim.Trading.Store.Statements.{
  position_keys, insert_order, insert_trade, lock_balance, current_position, upsert_position,
  update_balance,
}

-- A server on which no statement fails and no number is too large for its column.
abbrev pub healthy : {F : Type 0} → (ℕ → ℕ) → (ℕ → ℕ) → (F → F) → Server F
healthy uuid clock store = record {
  uuid = uuid;
  clock = clock;
  numeric = λ x. some (store x);
  fails = λ t. false;
}

-- Whether a call returned a fill.
abbrev pub is_filled : {F : Type 0} → Result (PlaceOrderResult F) → Bool
is_filled (ok r) = true
is_filled (err e) = false

module _ {F : Type 0} ⦃f : Float F⦄ (uuid clock : ℕ → ℕ) (store : F → F) where
  buy_runs :
      (p : ExecuteOrderParams F) (c : Conn F) (balance : F) (a : AccountRow F)
      → lookup p.account_id c.working.accounts ≡ some a
      → is_filled (execute_buy (healthy uuid clock store) p balance c).0
        ≡ (if f.lt balance (f.mul p.price p.quantity) then false else true)
  unfolding execute_buy reject_within statement commit insert_order insert_trade current_position
      upsert_position update_balance lookup
  buy_runs p c balance a found = elim (Bool-cases (f.lt balance (f.mul p.price p.quantity))) [
    | inl short ↦ rw short
    | inr enough ↦ rw enough (rw (found, update_balance))
  ]

  side_runs :
      (side : Side) (p : ExecuteOrderParams F) (c : Conn F) (balance : F) (a : AccountRow F)
      → side ≡ buy
      → lookup p.account_id c.working.accounts ≡ some a
      → is_filled (execute_side (healthy uuid clock store) side p balance c).0
        ≡ (if f.lt balance (f.mul p.price p.quantity) then false else true)
  unfolding execute_side
  side_runs side p c balance a e found = rw e (buy_runs p c balance a found)

  -- With a database that works, a buy on an account that exists is filled exactly when the balance
  -- covers `price * quantity`.
  pub buy_filled_iff_covered :
      (p : ExecuteOrderParams F) (c : Conn F) (a : AccountRow F)
      → p.side ≡ buy
      → lookup p.account_id c.committed.accounts ≡ some a
      → is_filled (execute_order (healthy uuid clock store) p c).0
        ≡ (if f.lt a.balance (f.mul p.price p.quantity) then false else true)
  unfolding execute_order begin_tx statement lock_balance
  buy_filled_iff_covered p c a side found =
      let srv = healthy uuid clock store in
      let opened : Conn F = record c { working = c.committed; tick = c.tick + 1 } in
      let locked : Conn F = record c { working = c.committed; tick = c.tick + 1 + 1 } in
      let lock : lock_balance srv p.account_id opened ≡ (ok a.balance, locked) =
        rw (found, lock_balance) in
      let rest : F → Sql F (PlaceOrderResult F) = execute_side srv p.side p in
      let chain =
        bind_ok (begin_tx srv) (λ _. lock_balance srv p.account_id >>= rest) c opened tt refl
        ∙ bind_ok (lock_balance srv p.account_id) rest opened locked a.balance lock in
      ap (λ o. is_filled o.0) chain ∙ side_runs p.side p locked a.balance a side found

-- ===== src/Trading/Store/Recorded.antt =====
-- An order that is rejected outside of any transaction.
use mathlib.Core.Option.{some-injective}
use quantsim.Prelude.{ℕ, ◌≡◌, sym, none, some}
use quantsim.Prelude.Float.{Float, nought}
use quantsim.Prelude.Text.{Text}
use quantsim.Trading.Types.{Order, Side, Reason, rejected, Result, ok, err, ExecuteOrderParams}
use quantsim.Trading.Postgres.{Server, Db, Conn, autocommit-post}
use quantsim.Trading.Store.{record_rejected_order}
use quantsim.Trading.Store.Effects
use quantsim.Trading.Store.Statements.{insert_order, stored?}
use quantsim.Trading.Store.Outcome.{Rejected}

module _ {F : Type 0} ⦃f : Float F⦄ (srv : Server F) where
  -- The order as it is recorded, which has no price.
  abbrev pub unpriced : ℕ → Text → Side → F → ExecuteOrderParams F
  unpriced account symbol side quantity = record {
    account_id = account;
    symbol = symbol;
    side = side;
    quantity = quantity;
    price = nought;
  }

  -- The row is there, or nothing has changed.
  abbrev pub Recorded : ExecuteOrderParams F → Reason → Db F → Result (Order F) → Db F → Type 0
  Recorded p reason db (ok o) db' = Rejected p reason db db'
  Recorded p reason db (err e) db' = db' ≡ db

  pub record_rejected_order-Recorded :
      (account : ℕ) (symbol : Text) (side : Side) (quantity : F) (reason : Reason) (c : Conn F)
      → let (r, c') = record_rejected_order srv account symbol side quantity reason c in
        Recorded (unpriced account symbol side quantity) reason c.committed r c'.committed
  unfolding record_rejected_order
  record_rejected_order-Recorded account symbol side quantity reason c =
      let p = unpriced account symbol side quantity in
      let start : Conn F = record c { working = c.committed } in
      autocommit-post (Recorded p reason c.committed)
        (insert_order srv p rejected none (some reason)) c
        (λ e c' h. (Effects.insert_order-err srv start c' e p rejected none (some reason) h).1)
        λ o c' h.
          let ins = Effects.insert_order-ok srv p start c' rejected none (some reason) o h in
          record {
            row = o;
            only = ins.1;
            status = ins.2;
            why = ins.3;
            unpriced = unfold stored? in sym (some-injective _ _ ins.7);
            whose = ins.4;
            what = ins.5;
          }

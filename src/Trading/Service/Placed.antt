-- ===== src/Trading/Service/Placed.antt =====
-- What `PlaceOrder` leaves behind, by how it ends.
use quantsim.Prelude.{ℕ, ◌+◌, if◌then◌else◌, ◌≡◌, ◌⊎◌, inl, inr, refl, none, some, ◌∷◌, arith}
use quantsim.Prelude.Float.{Float}
use quantsim.Prelude.Text.{Text}
use quantsim.Trading.Types.{
  Order, Side, rejected, Reason, Error, err_insufficient_balance, err_insufficient_position, Result,
  ok, err, Account, PlaceOrderRequest, PlaceOrderResult, ExecuteOrderParams,
}
use quantsim.Trading.Client.{Exchange, latest_price}
use quantsim.Trading.Postgres.{Server, Db, Conn, statement, autocommit-post}
use quantsim.Trading.Store.{execute_order, record_rejected_order}
use quantsim.Trading.Store.Outcome.{Filled, Rejected, Settles}
use quantsim.Trading.Store.Atomic.{execute_order-Settles}
use quantsim.Trading.Store.Recorded.{Recorded, unpriced, record_rejected_order-Recorded}
use quantsim.Trading.Service.{
  Cache, World, rejection_reason, owned_by, select_account, account_for_user, record_rejection,
  fill_at, price_and_fill, invalidate_insights,
}

module _ {F : Type 0} ⦃f : Float F⦄ (srv : Server F) where
  -- The order that reaches the store.
  abbrev pub params : Account F → PlaceOrderRequest F → F → ExecuteOrderParams F
  params account req price = record {
    account_id = account.id;
    symbol = req.symbol;
    side = req.side;
    quantity = req.quantity;
    price = price;
  }

  -- One rejected order more in the history, and nothing else.
  pub record Audited (db db' : Db F) : Type 0 where
    pub row : Order F
    pub only : db' ≡ record db { orders = row ∷ db.orders }
    pub status : row.status ≡ rejected
    pub free : row.filled_price ≡ none

  -- No money has moved: the tables are the same but for at most one rejected order, and no report
  -- was dropped.
  abbrev pub Unmoved : Db F → Cache → World F → Type 0
  Unmoved db cache w' =
      ((w'.conn.committed ≡ db) ⊎ Audited db w'.conn.committed) × (w'.cache ≡ cache)

  audited :
      (p : ExecuteOrderParams F) (reason : Reason) (db db' : Db F)
      → Rejected p reason db db'
      → Audited db db'
  audited p reason db db' r = record {
    row = r.row;
    only = r.only;
    status = r.status;
    free = r.unpriced;
  }

  -- The account that was found is the caller's own, and the look-up changes nothing.
  abbrev pub Resolved : ℕ → Db F → Result (Account F) → Db F → Type 0
  Resolved user db (ok a) db' = (db' ≡ db) × (owned_by user db.accounts ≡ some a)
  Resolved user db (err e) db' = db' ≡ db

  select_account-ok :
      (user : ℕ) (c c' : Conn F) (a : Account F)
      → select_account srv user c ≡ (ok a, c')
      → (c'.working ≡ c.working) × (owned_by user c.working.accounts ≡ some a)
  unfolding select_account statement
  select_account-ok user c c' a h = ground arith

  select_account-err :
      (user : ℕ) (c c' : Conn F) (e : Error)
      → select_account srv user c ≡ (err e, c')
      → c'.committed ≡ c.committed
  unfolding select_account statement
  select_account-err user c c' e h = ground arith

  pub account_for_user-Resolved :
      (user : ℕ) (c : Conn F)
      → let (r, c') = account_for_user srv user c in Resolved user c.committed r c'.committed
  unfolding account_for_user
  account_for_user-Resolved user c =
      let start : Conn F = record c { working = c.committed } in
      autocommit-post (Resolved user c.committed) (select_account srv user) c
        (λ e c' h. select_account-err user start c' e h)
        (λ a c' h. select_account-ok user start c' a h)

  Recorded-Audited :
      (p : ExecuteOrderParams F) (reason : Reason) (db db' : Db F) (r : Result (Order F))
      → Recorded srv p reason db r db'
      → (db' ≡ db) ⊎ Audited db db'
  Recorded-Audited p reason db db' (ok o) h = inr (audited p reason db db' h)
  Recorded-Audited p reason db db' (err e) h = inl h

  settled-Audited :
      (p : ExecuteOrderParams F) (side : Side) (db db' : Db F) (e : Error)
      → Settles srv p side db (err e) db'
      → (db' ≡ db) ⊎ Audited db db'
  settled-Audited p side db db' err_insufficient_balance h = inr (audited p _ db db' h)
  settled-Audited p side db db' err_insufficient_position h = inr (audited p _ db db' h)
  settled-Audited p side db db' _ h = inl h

  -- A failed price ends in one rejected order at most.
  record_rejection-Unmoved :
      (account : ℕ) (req : PlaceOrderRequest F) (reason : Reason) (w : World F)
      → Unmoved w.conn.committed w.cache
          (record w { conn = record_rejection srv account req reason w.conn })
  unfolding record_rejection
  record_rejection-Unmoved account req reason w =
      let (r, c') =
        record_rejected_order srv account req.symbol req.side req.quantity reason w.conn in
      (
        Recorded-Audited (unpriced srv account req.symbol req.side req.quantity) reason
            w.conn.committed c'.committed r
            (record_rejected_order-Recorded srv account req.symbol req.side req.quantity reason
              w.conn),
        refl,
      )

  module _ (user : ℕ) (market : Text → Exchange F) where
    -- A fill: of the order as it was checked, on the caller's own account, at a price that market-data
    -- gave for its symbol; and the cache was asked
    -- once to drop the caller's report, which it did unless it failed.
    pub record Executed (checked : PlaceOrderRequest F) (db : Db F) (cache : Cache)
        (r : PlaceOrderResult F) (w' : World F) : Type 0 where
      pub account : Account F
      pub price : F
      pub own : owned_by user db.accounts ≡ some account
      pub priced : latest_price (market checked.symbol) ≡ ok price
      pub fill : Filled srv (params account checked price) checked.side db r w'.conn.committed
      pub fails : w'.cache.fails ≡ cache.fails
      pub asked : w'.cache.asked ≡ cache.asked + 1
      pub dropped :
          w'.cache.dropped
          ≡ (if cache.fails cache.asked then cache.dropped else user ∷ cache.dropped)

    abbrev pub Placed :
        PlaceOrderRequest F → Db F → Cache → Result (PlaceOrderResult F) → World F → Type 0
    Placed checked db cache (ok r) w' = Executed checked db cache r w'
    Placed checked db cache (err e) w' = Unmoved db cache w'

    module _ (account : Account F) (checked : PlaceOrderRequest F) where
      -- How `fill_at` goes on from what the store did.
      filled_world :
          World F → Result (PlaceOrderResult F) × Conn F → Result (PlaceOrderResult F) × World F
      filled_world w o = elim o.0 [
        | err e ↦ (err e, record w { conn = o.1 })
        | ok fill ↦ (ok fill, invalidate_insights user (record w { conn = o.1 }))
      ]

      filled_world-Placed :
          (price : F) (w : World F) (o : Result (PlaceOrderResult F) × Conn F)
          → owned_by user w.conn.committed.accounts ≡ some account
          → latest_price (market checked.symbol) ≡ ok price
          → Settles srv
              (params account checked price)
              checked.side
              w.conn.committed
              o.0
              o.1.committed
          → let (r, w') = filled_world w o in Placed checked w.conn.committed w.cache r w'
      unfolding filled_world invalidate_insights
      filled_world-Placed price w (ok r, c) own priced s = record {
        account = account;
        price = price;
        own = own;
        priced = priced;
        fill = s;
        fails = refl;
        asked = refl;
        dropped = refl;
      }
      filled_world-Placed price w (err e, c) own priced s = (
        settled-Audited (params account checked price) checked.side w.conn.committed c.committed e
            s,
        refl,
      )

      pub price_and_fill-Placed :
          (quote : Result F) (w : World F)
          → owned_by user w.conn.committed.accounts ≡ some account
          → latest_price (market checked.symbol) ≡ quote
          → let (r, w') = price_and_fill srv user account checked quote w in
            Placed checked w.conn.committed w.cache r w'
      unfolding price_and_fill fill_at filled_world
      price_and_fill-Placed (err e) w own priced =
          record_rejection-Unmoved account.id checked (rejection_reason e) w
      price_and_fill-Placed (ok price) w own priced =
          filled_world-Placed price w (execute_order srv (params account checked price) w.conn) own
            priced (execute_order-Settles srv (params account checked price) w.conn)

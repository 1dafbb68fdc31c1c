-- ===== src/Trading/Listing/Rows.antt =====
-- The listings against the tables.
use quantsim.Prelude.{ℕ, ◌≤◌, ◌<◌, ◌⊎◌, ◌≡◌, ◌==◌, true, false, List, [], ◌∷◌, arith, keep, take}
use quantsim.Prelude.Int.{ℤ, pos, negsuc}
use quantsim.Prelude.Float.{Float}
use quantsim.Trading.Types.{Order, Trade, Error, Result, ok, err}
use quantsim.Trading.Postgres.{Server, Db, Conn, statement, autocommit, autocommit-post}
use quantsim.Trading.Listing.{
  Collation, before_pair, limited, order_by, newer, older, list_orders, list_trades,
}
use quantsim.Trading.Listing.Sorting.{
  SameRows, InOrder, order_by-SameRows, order_by-InOrder, before_pair_asym,
}

-- What a query answers with, and that it changes nothing.
abbrev pub Answers : {F A : Type 0} → A → Db F → Result A → Db F → Type 0
Answers rows db (ok r) db' = (r ≡ rows) × (db' ≡ db)
Answers rows db (err e) db' = db' ≡ db

module _ {F : Type 0} ⦃f : Float F⦄ (srv : Server F) (by : Collation F) where
  query-ok :
      {A : Type 0} (rows : Db F → A) (c c' : Conn F) (r : A)
      → statement srv (λ t db. (ok (rows db), db)) c ≡ (ok r, c')
      → (r ≡ rows c.working) × (c'.working ≡ c.working)
  unfolding statement
  query-ok rows c c' r h = ground arith

  query-err :
      {A : Type 0} (rows : Db F → A) (c c' : Conn F) (e : Error)
      → statement srv (λ t db. (ok (rows db), db)) c ≡ (err e, c')
      → c'.committed ≡ c.committed
  unfolding statement
  query-err rows c c' e h = ground arith

  query-Answers :
      {A : Type 0} (rows : Db F → A) (c : Conn F)
      → let (r, c') = autocommit (statement srv (λ t db. (ok (rows db), db))) c in
        Answers (rows c.committed) c.committed r c'.committed
  query-Answers rows c =
      let start : Conn F = record c { working = c.committed } in
      autocommit-post (Answers (rows c.committed) c.committed)
        (statement srv (λ t db. (ok (rows db), db))) c (λ e c' h. query-err rows start c' e h)
        (λ r c' h. query-ok rows start c' r h)

  newer_asym : (a b : Order F) → newer a b ≡ true → newer b a ≡ false
  unfolding newer
  newer_asym a b = before_pair_asym b.created_at b.id a.created_at a.id

  older_asym : (a b : Trade F) → older a b ≡ true → older b a ≡ false
  unfolding older
  older_asym a b = before_pair_asym a.executed_at a.id b.executed_at b.id

  -- Each order was created after the next one, or at the same instant with no smaller an id.
  abbrev pub NewestFirst : List (Order F) → Type 0
  NewestFirst [] = Unit
  NewestFirst (a ∷ []) = Unit
  NewestFirst (a ∷ b ∷ rows) =
      ((b.created_at < a.created_at) ⊎ ((b.created_at ≡ a.created_at) × (b.id ≤ a.id)))
      × NewestFirst (b ∷ rows)

  -- Each trade was executed before the next one, or at the same instant with no greater an id.
  abbrev pub OldestFirst : List (Trade F) → Type 0
  OldestFirst [] = Unit
  OldestFirst (a ∷ []) = Unit
  OldestFirst (a ∷ b ∷ rows) =
      ((a.executed_at < b.executed_at) ⊎ ((a.executed_at ≡ b.executed_at) × (a.id ≤ b.id)))
      × OldestFirst (b ∷ rows)

  newer-NewestFirst : (rows : List (Order F)) → InOrder newer rows → NewestFirst rows
  unfolding newer before_pair
  newer-NewestFirst [] h = tt
  newer-NewestFirst (a ∷ []) h = tt
  newer-NewestFirst (a ∷ b ∷ rows) h = (ground (arith, h.0), newer-NewestFirst (b ∷ rows) h.1)

  older-OldestFirst : (rows : List (Trade F)) → InOrder older rows → OldestFirst rows
  unfolding older before_pair
  older-OldestFirst [] h = tt
  older-OldestFirst (a ∷ []) h = tt
  older-OldestFirst (a ∷ b ∷ rows) h = (ground (arith, h.0), older-OldestFirst (b ∷ rows) h.1)

  -- The history is complete and in order: it is all the account's orders, rejected ones included and
  -- each once for each row, the newest first; and reading it changes nothing.
  abbrev pub History : ℕ → Db F → Result (List (Order F)) → Db F → Type 0
  History account db (ok rows) db' =
      SameRows rows (keep (λ (o : Order F). o.account_id == account) db.orders)
      × NewestFirst rows
      × (db' ≡ db)
  History account db (err e) db' = db' ≡ db

  answered-History :
      (account : ℕ) (db db' : Db F) (r : Result (List (Order F)))
      → Answers
          (order_by newer (keep (λ (o : Order F). o.account_id == account) db.orders))
          db
          r
          db'
      → History account db r db'
  answered-History account db db' (ok rows) (e, same) =
      let mine = keep (λ (o : Order F). o.account_id == account) db.orders in
      rw e (
        order_by-SameRows newer mine,
        newer-NewestFirst (order_by newer mine) (order_by-InOrder newer newer_asym mine),
        same,
      )
  answered-History account db db' (err e) same = same

  -- `ListOrders` answers with all the orders of the account, those that were rejected included, each
  -- as often as it is in the table, the newest first; and it changes nothing, even where it fails.
  pub list_orders-History :
      (account : ℕ) (c : Conn F)
      → let (r, c') = list_orders srv by account c in History account c.committed r c'.committed
  unfolding list_orders
  list_orders-History account c =
      let (r, c') = list_orders srv by account c in
      answered-History account c.committed c'.committed r (
        query-Answers
          (λ db. order_by newer (keep (λ (o : Order F). o.account_id == account) db.orders)) c)

  -- The log of trades: as many of the whole log as were asked for, which has all the account's
  -- trades, the oldest first.
  pub record Prefix (account limit : ℕ) (db : Db F) (rows : List (Trade F)) : Type 0 where
    pub log : List (Trade F)
    pub all : SameRows log (keep (λ (t : Trade F). t.account_id == account) db.trades)
    pub sorted : OldestFirst log
    pub cut : rows ≡ take limit log

  -- There is an answer to a limit that is not negative only.
  abbrev pub Listed : ℕ → ℤ → Db F → List (Trade F) → Type 0
  Listed account (pos limit) db rows = Prefix account limit db rows
  Listed account (negsuc n) db rows = ⊥

  abbrev pub Log : ℕ → ℤ → Db F → Result (List (Trade F)) → Db F → Type 0
  Log account limit db (ok rows) db' = Listed account limit db rows × (db' ≡ db)
  Log account limit db (err e) db' = db' ≡ db

  listing-ok :
      (rows : Db F → List (Trade F)) (limit : ℤ) (c c' : Conn F) (r : List (Trade F))
      → statement srv (λ t db. (limited limit (rows db), db)) c ≡ (ok r, c')
      → (limited limit (rows c.working) ≡ ok r) × (c'.working ≡ c.working)
  unfolding statement
  listing-ok rows limit c c' r h = ground arith

  listing-err :
      (rows : Db F → List (Trade F)) (limit : ℤ) (c c' : Conn F) (e : Error)
      → statement srv (λ t db. (limited limit (rows db), db)) c ≡ (err e, c')
      → c'.committed ≡ c.committed
  unfolding statement
  listing-err rows limit c c' e h = ground arith

  listing-Log :
      (account : ℕ) (limit : ℤ) (db db' : Db F) (r : List (Trade F))
      → limited limit (order_by older (keep (λ (t : Trade F). t.account_id == account) db.trades))
        ≡ ok r
      → db' ≡ db
      → Log account limit db (ok r) db'
  listing-Log account (pos n) db db' r e same =
      let mine = keep (λ (t : Trade F). t.account_id == account) db.trades in
      (
        record {
          log = order_by older mine;
          all = order_by-SameRows older mine;
          sorted = older-OldestFirst (order_by older mine) (order_by-InOrder older older_asym mine);
          cut = ground (arith, e);
        },
        same,
      )
  listing-Log account (negsuc n) db db' r e same = cc e

  -- `ListTrades` answers with the first trades of the account's whole log, up to the limit, where the
  -- log has all its trades and starts with the oldest, so that no trade in the answer comes after one
  -- that was cut off; a negative limit has no answer; and the listing changes nothing, even where it
  -- fails.
  pub list_trades-Log :
      (account : ℕ) (limit : ℤ) (c : Conn F)
      → let (r, c') = list_trades srv by account limit c in
        Log account limit c.committed r c'.committed
  unfolding list_trades
  list_trades-Log account limit c =
      let start : Conn F = record c { working = c.committed } in
      let rows =
        λ (db : Db F). order_by older (keep (λ (t : Trade F). t.account_id == account) db.trades) in
      autocommit-post (Log account limit c.committed)
        (statement srv (λ t db. (limited limit (rows db), db))) c
        (λ e c' h. listing-err rows limit start c' e h)
        (λ r c' h.
          let (e, same) = listing-ok rows limit start c' r h in
          listing-Log account limit c.committed c'.working r e same)

-- ===== src/Trading/Store/Reject.antt =====
-- A rejection within the transaction: one committed order row.
use mathlib.Core.Path.{subst}
use mathlib.Core.Option.{some-injective}
use quantsim.Prelude.{◌≡◌, refl, sym, ◌∙◌, none, some}
use quantsim.Prelude.Float.{Float}
use quantsim.Trading.Types.{
  Side, Reason, Error, rejected, ExecuteOrderParams, PlaceOrderResult, Result, ok, err,
}
use quantsim.Trading.Postgres.{
  Sql, Server, Db, Conn, raise, >>=-post, result-post, commit, ◌>>=◌, ◌>>◌,
}
use quantsim.Trading.Store.{reject_within}
use quantsim.Trading.Store.Effects
use quantsim.Trading.Store.Effects.{Raised}
use quantsim.Trading.Store.Statements.{insert_order, stored?}
use quantsim.Trading.Store.Outcome.{Settles, Rejected}

module _ {F : Type 0} ⦃f : Float F⦄ (srv : Server F) (p : ExecuteOrderParams F) where
  -- Nothing is durable after an error of the database.
  pub Raised-Settles :
      (side : Side) (db : Db F) (e : Error) (c c' : Conn F)
      → Raised e c c'
      → c.committed ≡ db
      → Settles srv p side db (err e) c'.committed
  Raised-Settles side db e c c' (is_db, same) eq = rw is_db (same ∙ eq)

  -- What `reject_within` leaves, from a transaction that has changed nothing so far.
  RejectPost : Reason → Conn F → Result (Unit {0}) → Conn F → Type 0
  RejectPost reason c (ok u) c' = Rejected p reason c.working c'.committed
  RejectPost reason c (err e) c' = Raised e c c'

  reject_within-post :
      (reason : Reason) (c : Conn F)
      → let (r, c') = reject_within srv p reason c in RejectPost reason c r c'
  unfolding reject_within RejectPost
  reject_within-post reason c =
      >>=-post (RejectPost reason c) (insert_order srv p rejected none (some reason))
        (λ _. commit srv) c
        (λ e c1 h. Effects.insert_order-err srv c c1 e p rejected none (some reason) h)
        λ o c1 h.
          let ins = Effects.insert_order-ok srv p c c1 rejected none (some reason) o h in
          result-post (RejectPost reason c) (commit srv c1)
            (λ e c2 k. let bad = Effects.commit-err srv c1 c2 e k in (bad.0, bad.1 ∙ ins.0))
            (λ u c2 k. record {
              row = o;
              only = Effects.commit-ok srv c1 c2 k ∙ ins.1;
              status = ins.2;
              why = ins.3;
              unpriced = unfold stored? in sym (some-injective _ _ ins.7);
              whose = ins.4;
              what = ins.5;
            })

  -- The whole branch that rejects: the error that is returned names the reason that was recorded.
  pub rejection :
      (side : Side) (reason : Reason) (error : Error) (c : Conn F)
      → c.working ≡ c.committed
      → ((db db' : Db F) → Rejected p reason db db' → Settles srv p side db (err error) db')
      → let (r, c') = (do reject_within srv p reason; raise {A = PlaceOrderResult F} error) c in
        Settles srv p side c.committed r c'.committed
  unfolding RejectPost
  rejection side reason error c same settled =
      let post = reject_within-post reason c in
      >>=-post {A = Unit {0}} (λ r c'. Settles srv p side c.committed r c'.committed)
        (reject_within srv p reason) (λ _. raise error) c
        (λ e c' h.
          Raised-Settles side c.committed e c c' (subst (λ o. RejectPost reason c o.0 o.1) h post)
            refl)
        (λ u c' h.
          let recorded = subst (λ o. RejectPost reason c o.0 o.1) h post in
          settled c.committed c'.committed
            (subst (λ db. Rejected p reason db c'.committed) same recorded))

  -- One step of the transaction: if it raises, nothing is durable; if not, go on.
  pub step :
      {A : Type 0} (side : Side) (db : Db F) (m : Sql F A) (g : A → Sql F (PlaceOrderResult F))
      (c : Conn F)
      → c.committed ≡ db
      → ((e : Error) (c' : Conn F) → m c ≡ (err e, c') → Raised e c c')
      → ((a : A) (c' : Conn F)
          → m c ≡ (ok a, c')
          → Settles srv p side db (g a c').0 (g a c').1.committed)
      → Settles srv p side db ((m >>= g) c).0 ((m >>= g) c).1.committed
  step side db m g c same raised returned =
      >>=-post (λ r c'. Settles srv p side db r c'.committed) m g c
        (λ e c' h. Raised-Settles side db e c c' (raised e c' h) same) returned

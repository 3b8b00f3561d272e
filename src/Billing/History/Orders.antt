-- ===== src/Billing/History/Orders.antt =====
-- The life of an order: once it is not pending its row never changes, and it is credited once.
use mathlib.Core.Option
use solsight_api.Prelude.{
  ℕ, ◌+◌, ◌≤◌, String, false, Option, none, some, Result, ok, ◌≡◌, refl, subst, ◌∙◌, arith, ◌⊎◌,
  inl, inr, Bool-cases, eq→≡, ◌==◌, string_eq, if◌then◌else◌, List, [], ◌∷◌, ap,
}
use solsight_api.Billing.Entities.{Database, Store, PaymentOrder, pending, QuotaSource, free, paid}
use solsight_api.Billing.Quota.{consume_quota, refund_quota, settle}
use solsight_api.Billing.Payment.{BillingError, CompleteOrderResult, credited, status_beq}
use solsight_api.Billing.Payment.Orders.{complete_order}
use solsight_api.Billing.Payment.Transfers.{expire_pending_orders, expire_order}
use solsight_api.Billing.Payment.Completion.{
  Completes, missing, not_pending, signature_used, pays, complete_order-Completes,
}
use solsight_api.Billing.History.{Event, consumes, refunds, completes, expires, step, run}

module _ (db : Database) where
  orders-consume_quota :
      (u : String) (amount now : ℕ) (s : Store db)
      → (consume_quota db u amount now s).1.orders ≡ s.orders
  unfolding consume_quota settle
  orders-consume_quota u amount now s = ground arith

  orders-refund_quota :
      (u : String) (src : QuotaSource) (amount now : ℕ) (s : Store db)
      → (refund_quota db u src amount now s).orders ≡ s.orders
  unfolding refund_quota
  orders-refund_quota u free amount now s = ground arith
  orders-refund_quota u paid amount now s = ground arith

  -- The order is not pending, or is not there.
  abbrev pub IsClosed : Option PaymentOrder → Type 0
  IsClosed none = Unit
  IsClosed (some o) = status_beq o.status pending ≡ false

  IsClosed-complete :
      (id j signature : String) (now : ℕ) (s : Store db)
      {r : Result BillingError CompleteOrderResult × Store db}
      → Completes db j signature now s r
      → IsClosed (db.orders.find id s.orders)
      → db.orders.find id r.1.orders ≡ db.orders.find id s.orders
  IsClosed-complete id j signature now s (missing e) closed = refl
  IsClosed-complete id j signature now s (not_pending o e n) closed = refl
  IsClosed-complete id j signature now s (signature_used o other e p a f t) closed = refl
  IsClosed-complete id j signature now s (pays o orders credits e p f mine others mb ob) closed =
      others id (λ q.
        let still : status_beq o.status pending ≡ false =
          subst IsClosed (ap (λ k. db.orders.find k s.orders) q ∙ e) closed in
        cc (p, still))

  key-expire_order : (now : ℕ) (o : PaymentOrder) → (expire_order db now o).id ≡ o.id
  key-expire_order now o = ground arith

  expire_order-closed :
      (now : ℕ) (o : PaymentOrder) → status_beq o.status pending ≡ false → expire_order db now o ≡ o
  expire_order-closed now o closed = rw closed

  IsClosed-expire :
      (id : String) (now : ℕ) (s : Store db)
      → IsClosed (db.orders.find id s.orders)
      → db.orders.find id (expire_pending_orders db now s).orders ≡ db.orders.find id s.orders
  unfolding expire_pending_orders
  IsClosed-expire id now s closed =
      db.orders.find-update_all (expire_order db now) id s.orders (key-expire_order now)
      ∙ same (db.orders.find id s.orders) closed
    where
      same : (o : Option PaymentOrder) → IsClosed o → Option.map (expire_order db now) o ≡ o
      same none c = refl
      same (some o) c = ap some (expire_order-closed now o c)

  step-IsClosed :
      (id : String) (e : ℕ × Event) (s : Store db)
      → IsClosed (db.orders.find id s.orders)
      → db.orders.find id (step db e s).orders ≡ db.orders.find id s.orders
  unfolding step
  step-IsClosed id (now, consumes u amount) s closed = rw (orders-consume_quota u amount now s)
  step-IsClosed id (now, refunds u src amount) s closed =
      rw (orders-refund_quota u src amount now s)
  step-IsClosed id (now, completes j signature) s closed =
      IsClosed-complete id j signature now s (complete_order-Completes db j signature now s) closed
  step-IsClosed id (now, expires) s closed = IsClosed-expire id now s closed

  -- Whatever happens later, an order that is not pending keeps its row as it is: its status, its
  -- signature and the time of its completion.
  pub run-closed_order :
      (id : String) (es : List (ℕ × Event)) (s : Store db)
      → IsClosed (db.orders.find id s.orders)
      → db.orders.find id (run db es s).orders ≡ db.orders.find id s.orders
  unfolding run
  run-closed_order id [] s closed = refl
  run-closed_order id (e ∷ es) s closed =
      let kept = step-IsClosed id e s closed in
      run-closed_order id es (step db e s) (rw kept closed) ∙ kept

  -- How often a history answers a call for the order by crediting it
  abbrev is_credit : Result BillingError CompleteOrderResult → ℕ
  is_credit (ok (credited n)) = 1
  is_credit _ = 0

  unfoldable pub times_credited : String → List (ℕ × Event) → Store db → ℕ
  times_credited id [] s = 0
  times_credited id ((now, completes j signature) ∷ es) s =
      let rest = times_credited id es (step db (now, completes j signature) s) in
      if j == id then is_credit (complete_order db j signature now s).0 + rest else rest
  times_credited id (e ∷ es) s = times_credited id es (step db e s)

  credit_closes :
      (id signature : String) (now : ℕ) (s : Store db)
      {r : Result BillingError CompleteOrderResult × Store db}
      → Completes db id signature now s r
      → (is_credit r.0 ≡ 0)
        ⊎ ((is_credit r.0 ≡ 1)
            × IsClosed (db.orders.find id r.1.orders)
            × ¬ IsClosed (db.orders.find id s.orders))
  credit_closes id signature now s (missing e) = inl refl
  credit_closes id signature now s (not_pending o e n) = inl refl
  credit_closes id signature now s (signature_used o other e p a f t) = inl refl
  credit_closes id signature now s (pays o orders credits e p f mine others mb ob) =
      inr (refl, rw mine refl, rw e (λ c. cc (p, c)))

  times_credited-closed :
      (id : String) (es : List (ℕ × Event)) (s : Store db)
      → IsClosed (db.orders.find id s.orders)
      → times_credited id es s ≡ 0
  unfolding times_credited
  times_credited-closed id [] s closed = refl
  times_credited-closed id ((now, completes j signature) ∷ es) s closed =
      let kept = step-IsClosed id (now, completes j signature) s closed in
      let later =
        times_credited-closed id es (step db (now, completes j signature) s) (rw kept closed) in
      elim (Bool-cases (j == id)) [
        | inr other ↦ rw other later
        | inl same ↦
            rw (same, later)
              (elim (credit_closes j signature now s
                (complete_order-Completes db j signature now s)) [
                  | inl zero_times ↦ omega (arith, zero_times)
                  | inr (_, _, opened) ↦ absurd (opened (rw (eq→≡ j id same) closed))
                ])
      ]
  times_credited-closed id (e ∷ es) s closed =
      times_credited-closed id es (step db e s) (rw (step-IsClosed id e s closed) closed)

  -- Over any history of calls, also two deliveries of one transfer and a submission at the same
  -- time, an order is credited at most once.
  pub times_credited-le-one :
      (id : String) (es : List (ℕ × Event)) (s : Store db) → times_credited id es s ≤ 1
  unfolding times_credited step
  times_credited-le-one id [] s = omega arith
  times_credited-le-one id ((now, completes j signature) ∷ es) s = elim (Bool-cases (j == id)) [
    | inr other ↦ rw other (times_credited-le-one id es _)
    | inl same ↦
        rw (same, eq→≡ j id same)
          (elim (credit_closes id signature now s
            (complete_order-Completes db id signature now s)) [
              | inl zero_times ↦ omega (
                arith,
                zero_times,
                times_credited-le-one id es (complete_order db id signature now s).1,
              )
              | inr (once, closed, _) ↦ omega (
                arith,
                once,
                times_credited-closed id es (complete_order db id signature now s).1 closed,
              )
            ])
  ]
  times_credited-le-one id (e ∷ es) s = times_credited-le-one id es _

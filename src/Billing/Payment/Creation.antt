-- ===== src/Billing/Payment/Creation.antt =====
-- payment.service.ts: what `createOrder` leaves in the table, and its rate limit.
use solsight_api.Prelude.{
  ℕ, ◌+◌, ◌<◌, String, Option, none, some, ok, err, ◌≡◌, ◌≢◌, ◌↔◌, refl, sym, ◌∙◌, arith, inl, inr,
  Option-cases, find-update_row_self, find-update_row_ne,
}
use solsight_api.Cluster.{Cluster}
use solsight_api.Redis.Client.{RedisClient}
use solsight_api.Redis.Service.{Redis, incr}
use solsight_api.Billing.Entities.{
  Database, Store, PaymentOrder, PaymentPackage, packages, order_rate_limit_per_hour, pending,
}
use solsight_api.Billing.Payment.{
  too_many_orders, Solana, CreatedPaymentOrder, build_order_memo, build_payment_transaction,
}
use solsight_api.Billing.Payment.Orders.{
  create_order, new_order, insert_order, billing_order_rate_limit_key,
}

module _ (db : Database) (o : PaymentOrder) (memo : String) (s : db.orders.State) where
  find-insert_order_self :
      db.orders.find o.id (insert_order db o memo s) ≡ some (record o { memo = memo })
  unfolding insert_order
  find-insert_order_self =
      find-update_row_self db.orders o.id (λ r. record r { memo = memo }) (db.orders.save o s)
        (λ v. refl)
      ∙ rw (db.orders.find-save_self o.id o s refl) refl

  find-insert_order_ne :
      (j : String) → j ≢ o.id → db.orders.find j (insert_order db o memo s) ≡ db.orders.find j s
  unfolding insert_order
  find-insert_order_ne j ne =
      find-update_row_ne db.orders o.id j (λ r. record r { memo = memo }) (db.orders.save o s)
        (λ v. refl) (λ q. ne (sym q))
      ∙ db.orders.find-save_ne j o s (λ q. ne (sym q))

module _ (db : Database) (c : RedisClient) (chain : Solana) (merchant_wallet : Option String)
    (u : String) (cluster : Cluster) (code wallet id : String) (now : ℕ) (s : Store db)
    (r : Redis c) where
  -- The order as the database keeps it, field by field
  abbrev pub stored_order : PaymentPackage → PaymentOrder
  stored_order pkg = record {
    id = id;
    user_id = u;
    package_code = pkg.code;
    credits = pkg.credits;
    amount_lamports = pkg.lamports;
    network = cluster;
    status = pending;
    tx_signature = none;
    memo = build_order_memo id;
    created_at = now;
    expires_at = now + 1800000;
    completed_at = none;
  }

  build-ne-too_many :
      (lamports : ℕ) (memo : String)
      → build_payment_transaction chain merchant_wallet cluster wallet lamports memo
        ≢ err too_many_orders
  unfolding build_payment_transaction
  build-ne-too_many lamports memo e = ground arith

  -- An order for a known package is refused for its rate exactly when Redis counts more than ten in
  -- the hour: a Redis that is away refuses nobody.
  create_order-too_many_iff :
      (pkg : PaymentPackage)
      → packages code ≡ some pkg
      → ((create_order db c chain merchant_wallet u cluster code wallet id now s r).0
          ≡ err too_many_orders)
        ↔ ((n : ℕ) × ((incr c (billing_order_rate_limit_key u) r).0 ≡ some n)
            × (order_rate_limit_per_hour < n))
  unfolding create_order
  create_order-too_many_iff pkg known =
      ground (arith, build-ne-too_many pkg.lamports (build_order_memo id))

  place_lem :
      (order : CreatedPaymentOrder) (s' : Store db) (r' : Redis c) (pkg : PaymentPackage)
      → packages code ≡ some pkg
      → create_order db c chain merchant_wallet u cluster code wallet id now s r
        ≡ (ok order, s', r')
      → (order.order_id ≡ id)
        × (order.credits ≡ pkg.credits)
        × (s'.orders
            ≡ insert_order db (new_order db id u cluster pkg now) (build_order_memo id) s.orders)
        × (s'.credits ≡ s.credits)
  unfolding create_order
  place_lem order s' r' pkg known e = ground arith

  no_package :
      (order : CreatedPaymentOrder) (s' : Store db) (r' : Redis c)
      → packages code ≡ none
      → create_order db c chain merchant_wallet u cluster code wallet id now s r
        ≢ (ok order, s', r')
  unfolding create_order
  no_package order s' r' unknown e = ground arith

  -- An order that is returned stands in the table: pending, of this user and network, with the credits
  -- and the price of its package, a memo that names it, and half an hour to pay. All other orders and
  -- all credits are as they were.
  pub create_order-stored :
      (order : CreatedPaymentOrder) (s' : Store db) (r' : Redis c)
      → create_order db c chain merchant_wallet u cluster code wallet id now s r
        ≡ (ok order, s', r')
      → (pkg : PaymentPackage) × (packages code ≡ some pkg)
        × (order.order_id ≡ id)
        × (order.credits ≡ pkg.credits)
        × (db.orders.find id s'.orders ≡ some (stored_order pkg))
        × ((j : String) → j ≢ id → db.orders.find j s'.orders ≡ db.orders.find j s.orders)
        × (s'.credits ≡ s.credits)
  create_order-stored order s' r' e = elim (Option-cases (packages code)) [
    | inl unknown ↦ absurd (no_package order s' r' unknown e)
    | inr (pkg, known) ↦
        let (named, worth, orders, credits) = place_lem order s' r' pkg known e in
        let o = new_order db id u cluster pkg now in
        let memo = build_order_memo id in
        (
          pkg,
          known,
          named,
          worth,
          rw orders (unfold new_order in find-insert_order_self db o memo s.orders),
          λ j ne. rw orders (find-insert_order_ne db o memo s.orders j (unfold new_order in ne)),
          credits,
        )
  ]

-- ===== src/Billing/Payment/Orders.antt =====
-- payment.service.ts: creating, refreshing, submitting and completing an order.
use solsight_api.Prelude.{
  ℕ, ◌+◌, ◌*◌, String, Bool, true, false, ◌&&◌, not, Option, none, some, Result, ok, err, ◌>>=◌,
  ◌>>◌, guard, or_throw, if◌then◌else◌, ltb, nat_beq, ◌==◌, string_eq, update_row,
}
use solsight_api.Prelude.Text.{◌⊕◌}
use solsight_api.Cluster.{Cluster}
use solsight_api.Redis.Client.{RedisClient}
use solsight_api.Redis.Service.{Redis, incr, expire}
use solsight_api.Billing.Entities.{
  Database, Store, PaymentOrder, pending, completed, PaymentPackage, packages, order_expiry_minutes,
  order_rate_limit_per_hour,
}
use solsight_api.Billing.Payment.{
  BillingError, invalid_package, too_many_orders, order_not_found, order_expired, cannot_submit,
  cannot_refresh, rpc_failed, duplicate_signature, Solana, BuiltPaymentTransaction,
  CreatedPaymentOrder, SubmitPaymentResult, CompleteOrderResult, already_processed, credited,
  build_order_memo, status_beq, build_payment_transaction,
}

-- `RedisService.KEYS.BILLING_ORDER_RATE_LIMIT` and its time to live in seconds
unfoldable pub billing_order_rate_limit_key : String → String
billing_order_rate_limit_key user_id = "billing:order_rate:" ⊕ user_id

abbrev pub billing_order_rate_limit_ttl : ℕ
billing_order_rate_limit_ttl = 60 * 60

-- The verdict on the count; `none` is the `null` of an unavailable Redis, which lets the order pass.
abbrev pub within_rate_limit : Option ℕ → Result BillingError (Unit {0})
within_rate_limit none = ok tt
within_rate_limit (some count) =
    if ltb order_rate_limit_per_hour count then err too_many_orders else ok tt

abbrev is_first : Option ℕ → Bool
is_first none = false
is_first (some count) = nat_beq count 1

module _ (c : RedisClient) where
  assert_order_rate_limit_not_exceeded : String → Redis c → Result BillingError (Unit {0}) × Redis c
  assert_order_rate_limit_not_exceeded user_id r =
      let key = billing_order_rate_limit_key user_id in
      let (count, r') = incr c key r in
      (
        within_rate_limit count,
        (if is_first count then (expire c key billing_order_rate_limit_ttl r').1 else r'),
      )

module _ (db : Database) where
  unfoldable pub get_owned_order : String → String → Store db → Result BillingError PaymentOrder
  get_owned_order user_id order_id s = do
    order ← or_throw (db.orders.find order_id s.orders) order_not_found
    guard (order.user_id == user_id) order_not_found
    ok order

  unfoldable pub get_owned_pending_order :
      String → String → ℕ → Store db → Result BillingError PaymentOrder
  unfolding get_owned_order
  get_owned_pending_order user_id order_id now s = do
    order ← get_owned_order user_id order_id s
    guard (status_beq order.status pending) (cannot_refresh order.status)
    guard (not (ltb order.expires_at now)) order_expired
    ok order

  -- `INSERT INTO user_credits … ON CONFLICT DO UPDATE SET "balance" = "balance" + $2`
  unfoldable pub add_credits : String → ℕ → ℕ → db.credits.State → db.credits.State
  add_credits user_id credits now s = elim (db.credits.find user_id s) [
    | none ↦ db.credits.save (record { user_id = user_id; balance = credits; updated_at = now }) s
    | some row ↦
        db.credits.save (record row { balance = row.balance + credits; updated_at = now }) s
  ]

  abbrev pub complete_with : String → ℕ → PaymentOrder → PaymentOrder
  complete_with signature now o = record o {
    status = completed;
    tx_signature = some signature;
    completed_at = some now;
  }

  abbrev pub holds_signature : String → PaymentOrder → Bool
  holds_signature signature o = elim o.tx_signature [
    | none ↦ false
    | some other ↦ other == signature
  ]

  -- Another order with the signature makes the statement fail, as the column is unique.
  abbrev pub taken_elsewhere : String → String → PaymentOrder → Bool
  taken_elsewhere signature order_id o = holds_signature signature o && not (o.id == order_id)

  -- The transaction on a pending order that was found
  unfoldable pub complete_pending :
      PaymentOrder → String → ℕ → Store db → Result BillingError CompleteOrderResult × Store db
  unfolding add_credits
  complete_pending o signature now s =
      elim (db.orders.find_where (taken_elsewhere signature o.id) s.orders) [
        | some other ↦ (err duplicate_signature, s)
        | none ↦ (
          ok (credited o.credits),
          record s {
            orders = db.orders.save (complete_with signature now o) s.orders;
            credits = add_credits o.user_id o.credits now s.credits;
          },
        )
      ]

  unfoldable pub complete_order :
      String → String → ℕ → Store db → Result BillingError CompleteOrderResult × Store db
  complete_order order_id signature now s = elim (db.orders.find order_id s.orders) [
    | none ↦ (ok already_processed, s)
    | some o ↦
        if status_beq o.status pending
        then complete_pending o signature now s
        else (ok already_processed, s)
  ]

  -- The order with its memo, as the two statements of `createOrder` leave it
  unfoldable pub new_order : String → String → Cluster → PaymentPackage → ℕ → PaymentOrder
  new_order id user_id cluster pkg now = record {
    id = id;
    user_id = user_id;
    package_code = pkg.code;
    credits = pkg.credits;
    amount_lamports = pkg.lamports;
    network = cluster;
    status = pending;
    tx_signature = none;
    memo = "PAY:pending";
    created_at = now;
    expires_at = now + order_expiry_minutes * 60 * 1000;
    completed_at = none;
  }

  -- `save`, then `update(order.id, { memo })`
  unfoldable pub insert_order : PaymentOrder → String → db.orders.State → db.orders.State
  insert_order order memo s =
      update_row db.orders order.id (λ r. record r { memo = memo }) (db.orders.save order s)

  module _ (c : RedisClient) (chain : Solana) (merchant_wallet : Option String) where
    abbrev created :
        PaymentOrder
        → Result BillingError BuiltPaymentTransaction
        → Result BillingError CreatedPaymentOrder
    created order built = do
      b ← built
      ok (record {
        order_id = order.id;
        package_code = order.package_code;
        credits = order.credits;
        amount_lamports = order.amount_lamports;
        expires_at = order.expires_at;
        built = b;
      })

    -- After the checks: the order stays in the table also when the transaction cannot be built.
    place_order :
        PaymentOrder → String → Store db → Result BillingError CreatedPaymentOrder × Store db
    unfolding insert_order
    place_order order wallet_address s =
        let memo = build_order_memo order.id in
        (
          created order (
              build_payment_transaction chain merchant_wallet order.network wallet_address
                order.amount_lamports memo),
          record s { orders = insert_order order memo s.orders },
        )

    abbrev attach {ℓ} : {A : Type ℓ} → Redis c → A × Store db → A × Store db × Redis c
    attach r (a, s) = (a, s, r)

    place_if :
        Result BillingError (Unit {0}) × Redis c
        → PaymentOrder
        → String
        → Store db
        → Result BillingError CreatedPaymentOrder × Store db × Redis c
    unfolding place_order
    place_if (ok _, r) order wallet_address s = attach r (place_order order wallet_address s)
    place_if (err e, r) order wallet_address s = (err e, s, r)

    -- `id` is the key that the database generates for the row.
    unfoldable pub create_order :
        String
        → Cluster
        → (package_code wallet_address id : String) (now : ℕ) → Store db
        → Redis c
        → Result BillingError CreatedPaymentOrder × Store db × Redis c
    unfolding assert_order_rate_limit_not_exceeded place_if new_order
    create_order user_id cluster package_code wallet_address id now s r =
        elim (packages package_code) [
          | none ↦ (err invalid_package, s, r)
          | some pkg ↦
              place_if (assert_order_rate_limit_not_exceeded c user_id r)
                (new_order id user_id cluster pkg now) wallet_address s
        ]

    unfoldable pub refresh_transaction :
        String
        → Cluster
        → (order_id wallet_address : String) (now : ℕ) → Store db
        → Result BillingError BuiltPaymentTransaction
    unfolding get_owned_pending_order
    refresh_transaction user_id cluster order_id wallet_address now s = do
      order ← get_owned_pending_order user_id order_id now s
      build_payment_transaction chain merchant_wallet cluster wallet_address order.amount_lamports
          order.memo

    -- `result.credits ?? order.credits`
    abbrev submitted : PaymentOrder → CompleteOrderResult → SubmitPaymentResult
    submitted order already_processed = record {
      credits_added = order.credits;
      already_processed = true;
    }
    submitted order (credited n) = record { credits_added = n; already_processed = false }

    abbrev finish :
        PaymentOrder
        → Result BillingError CompleteOrderResult × Store db
        → Result BillingError SubmitPaymentResult × Store db
    finish order (ok result, s) = (ok (submitted order result), s)
    finish order (err e, s) = (err e, s)

    confirm :
        PaymentOrder
        → Option String
        → ℕ
        → Store db
        → Result BillingError SubmitPaymentResult × Store db
    unfolding complete_order
    confirm order none now s = (err rpc_failed, s)
    confirm order (some signature) now s = finish order (complete_order order.id signature now s)

    abbrev submit_owned :
        PaymentOrder
        → Option String
        → ℕ
        → Store db
        → Store db
        → Result BillingError SubmitPaymentResult × Store db
    submit_owned order signature now s s' =
        if status_beq order.status completed
        then (ok (record { credits_added = order.credits; already_processed = true }), s)
        else if status_beq order.status pending
        then confirm order signature now s'
        else (err (cannot_submit order.status), s)

    -- `meanwhile` is what other requests do to the tables while the chain confirms the transaction.
    unfoldable pub submit_payment :
        String
        → Cluster
        → (order_id signed_transaction : String) (now : ℕ) (meanwhile : Store db → Store db)
        → Store db
        → Result BillingError SubmitPaymentResult × Store db
    unfolding get_owned_order confirm
    submit_payment user_id cluster order_id signed_transaction now meanwhile s =
        elim (get_owned_order user_id order_id s) [
          | err e ↦ (err e, s)
          | ok order ↦
              submit_owned order (chain.submit_and_confirm cluster signed_transaction) now s
                (meanwhile s)
        ]

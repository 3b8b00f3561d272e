-- ===== src/Billing/Tests.antt =====
-- modules/billing: runs on small tables, and the theorems at concrete inputs.
use solsight_api.Prelude.{
  ℕ, ◌+◌, ◌≤◌, ◌<◌, String, true, none, some, List, [], ◌∷◌, ◌≡◌, ◌≢◌, refl, arith, row_table,
  string_eq, nat_eq, pair_eq,
}
use solsight_api.Cluster.{mainnet}
use solsight_api.Redis.Memory.{memory}
use solsight_api.Billing.Entities.{
  FeatureUsage, UserCredit, PaymentOrder, pending, expired, Database, Store, usage_key, credit_key,
  order_key, free, paid, allowed, refused, packages, PaymentPackage,
}
use solsight_api.Billing.Quota.{
  usage_date_utc7, next_reset_at_utc7, use_free, use_paid, settle, consume_quota, refund_quota,
  free_used, paid_credits, day_ms,
}
use solsight_api.Billing.Quota.Contract.{account, consume_quota-spend, refund_quota-consume_quota}
use solsight_api.Billing.Quota.Reset.{next_reset_at_utc7_bounds}
use solsight_api.Redis.Service.{incr}
use solsight_api.Billing.Payment.{
  build_order_memo, build_payment_transaction, Solana, PaymentTransferEvent, CreatedPaymentOrder,
}
use solsight_api.Billing.Payment.Orders.{create_order, complete_order, complete_pending}
use solsight_api.Billing.Payment.Transfers.{handle, expire_pending_orders}
use solsight_api.Billing.Payment.Creation.{stored_order, create_order-stored}
use solsight_api.Billing.Payment.Delivery.{NamesOrder, handle_expired}
use solsight_api.Billing.History.{Event, consumes, refunds, completes, expires, run}
use solsight_api.Billing.History.Orders.{times_credited, run-closed_order, times_credited-le-one}
use solsight_api.Billing.History.Balance.{spent, gained, total_spent, total_gained, run_balance}

abbrev rows : Database
rows = record {
  usage = row_table usage_key;
  credits = row_table credit_key;
  orders = row_table order_key;
}

abbrev ann_order : PaymentOrder
ann_order = record {
  id = "o1";
  user_id = "ann";
  package_code = "credits_50";
  credits = 50;
  amount_lamports = 50000000;
  network = mainnet;
  status = pending;
  tx_signature = none;
  memo = "PAY:o1";
  created_at = 0;
  expires_at = 1800000;
  completed_at = none;
}

abbrev ann_usage : FeatureUsage
ann_usage = record { user_id = "ann"; usage_date = 0; count = 9 }

abbrev ann_credit : UserCredit
ann_credit = record { user_id = "ann"; balance = 5; updated_at = 0 }

abbrev sample : Store rows
sample = record {
  usage = (ann_usage ∷ [], (refl, tt));
  credits = (ann_credit ∷ [], (refl, tt));
  orders = (ann_order ∷ [], (refl, tt));
}

-- The last free use, then five paid ones, then nothing.
consume_tests :
    ((consume_quota rows "ann" 1 0 sample).0 ≡ allowed free)
    × ((consume_quota rows "ann" 2 0 sample).0 ≡ allowed paid)
    × ((consume_quota rows "ann" 6 0 sample).0 ≡ refused)
    × ((consume_quota rows "bob" 4 0 sample).0 ≡ allowed free)
unfolding consume_quota settle use_free use_paid usage_date_utc7
consume_tests = (refl, refl, refl, refl)

consume_quota-spend_example :
    ((consume_quota rows "ann" 2 0 sample).0 ≡ allowed paid)
    × (account rows "ann" 0 (consume_quota rows "ann" 2 0 sample).1
        ≡ record { used = 9; credits = 3 })
unfolding free_used paid_credits usage_date_utc7
consume_quota-spend_example = consume_quota-spend rows "ann" 2 0 sample (omega arith) (omega arith)

refund_quota-consume_quota_example :
    account rows "ann"
      (usage_date_utc7 0)
      (refund_quota rows "ann" paid 2 0 (consume_quota rows "ann" 2 0 sample).1)
    ≡ account rows "ann" (usage_date_utc7 0) sample
refund_quota-consume_quota_example =
    refund_quota-consume_quota rows "ann" 2 0 paid sample (omega arith) (omega arith)
      consume_tests.1

next_reset_at_utc7_bounds_example :
    (1000 < next_reset_at_utc7 1000)
    × (next_reset_at_utc7 1000 ≤ 1000 + day_ms)
    × (usage_date_utc7 (next_reset_at_utc7 1000) ≡ usage_date_utc7 1000 + 1)
    × ((t : ℕ) → 1000 ≤ t → t < next_reset_at_utc7 1000 → usage_date_utc7 t ≡ usage_date_utc7 1000)
next_reset_at_utc7_bounds_example = next_reset_at_utc7_bounds 1000

abbrev history : List (ℕ × Event)
history =
    (0, consumes "ann" 2)
    ∷ (10, completes "o1" "sig1")
    ∷ (20, completes "o1" "sig1")
    ∷ (30, refunds "ann" paid 2)
    ∷ (2000000, expires)
    ∷ []

history_credits :
    (paid_credits rows "ann" (run rows history sample).credits ≡ 55)
    × (total_spent rows "ann" history sample ≡ 2)
    × (total_gained rows "ann" history sample ≡ 52)
unfolding run total_spent total_gained spent gained paid_credits consume_quota use_free use_paid
    settle refund_quota usage_date_utc7 complete_order complete_pending expire_pending_orders
history_credits = (refl, refl, refl)

run_balance_example :
    paid_credits rows "ann" (run rows history sample).credits
      + total_spent rows "ann" history sample
    ≡ paid_credits rows "ann" sample.credits + total_gained rows "ann" history sample
run_balance_example = run_balance rows "ann" history sample

times_credited-le-one_example : times_credited rows "o1" history sample ≤ 1
times_credited-le-one_example = times_credited-le-one rows "o1" history sample

abbrev closed_sample : Store rows
closed_sample = record sample { orders = (record ann_order { status = expired } ∷ [], (refl, tt)) }

run-closed_order_example :
    rows.orders.find "o1" (run rows history closed_sample).orders
    ≡ some (record ann_order { status = expired })
run-closed_order_example = run-closed_order rows "o1" history closed_sample refl

abbrev transfer : PaymentTransferEvent
transfer = record {
  event_id = "e1";
  from_wallet = "w1";
  to_wallet = "shop";
  lamports = 1;
  memo = some "PAY:o1";
  slot = 7;
  signature = "sig1";
  timestamp = 3;
  network = some mainnet;
}

transfer-NamesOrder : NamesOrder rows (some "shop") transfer "o1"
unfolding build_order_memo
transfer-NamesOrder = record {
  to_merchant = refl;
  reported = (mainnet, refl);
  named = refl;
  id_full = refl;
}

handle_expired_example :
    handle rows (some "shop") transfer "c" 2000001 (expire_pending_orders rows 2000000 sample)
    ≡ some (expire_pending_orders rows 2000000 sample)
handle_expired_example =
    handle_expired rows (some "shop") transfer "c" "o1" 2000000 2000001 sample ann_order
      transfer-NamesOrder refl refl (omega arith)

abbrev chain : Solana
chain = record {
  valid_key = λ k. true;
  latest_blockhash = λ c. some (record { blockhash = "b"; last_valid_block_height = 9 });
  transfer_with_memo = λ from to n memo latest. memo;
  submit_and_confirm = λ c tx. some "sig1";
}

abbrev placed : CreatedPaymentOrder
placed = record {
  order_id = "o2";
  package_code = "credits_50";
  credits = 50;
  amount_lamports = 50000000;
  expires_at = 1800000;
  built = record { transaction = "PAY:o2"; blockhash = "b"; last_valid_block_height = 9 };
}

create_order-stored_example :
    (pkg : PaymentPackage) × (packages "credits_50" ≡ some pkg)
    × (placed.order_id ≡ "o2")
    × (placed.credits ≡ pkg.credits)
    × (rows.orders.find "o2"
          (create_order rows memory chain
            (some "shop")
            "ann"
            mainnet
            "credits_50"
            "w1"
            "o2"
            0
            sample
            none).1.orders
        ≡ some (
            stored_order rows memory chain
              (some "shop")
              "ann"
              mainnet
              "credits_50"
              "w1"
              "o2"
              0
              sample
              none
              pkg))
    × ((j : String)
        → j ≢ "o2"
        → rows.orders.find j
            (create_order rows memory chain
              (some "shop")
              "ann"
              mainnet
              "credits_50"
              "w1"
              "o2"
              0
              sample
              none).1.orders
          ≡ rows.orders.find j sample.orders)
    × ((create_order rows memory chain
          (some "shop")
          "ann"
          mainnet
          "credits_50"
          "w1"
          "o2"
          0
          sample
          none).1.credits
        ≡ sample.credits)
unfolding create_order packages build_order_memo build_payment_transaction incr
create_order-stored_example =
    create_order-stored rows memory chain (some "shop") "ann" mainnet "credits_50" "w1" "o2" 0
      sample none placed _ none refl

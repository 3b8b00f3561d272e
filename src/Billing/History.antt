-- ===== src/Billing/History.antt =====
-- modules/billing over time: any interleaving of the calls that write the tables, each of them one
-- atomic statement or transaction, with the time at which it runs.
pub mod Orders
pub mod Balance
use solsight_api.Prelude.{ℕ, String, List, [], ◌∷◌}
use solsight_api.Billing.Entities.{Database, Store, QuotaSource}
use solsight_api.Billing.Quota.{consume_quota, refund_quota}
use solsight_api.Billing.Payment.Orders.{complete_order}
use solsight_api.Billing.Payment.Transfers.{expire_pending_orders}

pub data Event : Type 0 where
  consumes : String → ℕ → Event
  refunds : String → QuotaSource → ℕ → Event
  -- by `submitPayment`, or by the handler of transfers
  completes : (order_id signature : String) → Event
  expires : Event

module _ (db : Database) where
  unfoldable pub step : ℕ × Event → Store db → Store db
  step (now, consumes user_id amount) s = (consume_quota db user_id amount now s).1
  step (now, refunds user_id source amount) s = refund_quota db user_id source amount now s
  step (now, completes order_id signature) s = (complete_order db order_id signature now s).1
  step (now, expires) s = expire_pending_orders db now s

  unfoldable pub run : List (ℕ × Event) → Store db → Store db
  unfolding step
  run [] s = s
  run (e ∷ es) s = run es (step e s)

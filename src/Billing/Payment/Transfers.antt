-- ===== src/Billing/Payment/Transfers.antt =====
-- handlers/payment-transfer.handler.ts, the transfers that the indexer reports, and
-- services/payment-reconcile.service.ts, the cron job that lets orders expire.
use solsight_api.Prelude.{
  ℕ, String, Bool, false, ◌&&◌, not, Option, none, some, if◌then◌else◌, ltb, ◌==◌, string_eq,
}
use solsight_api.Prelude.Text.{is_blank}
use solsight_api.Cluster.{Cluster}
use solsight_api.Cluster.Channels.{cluster_from_channel}
use solsight_api.Billing.Entities.{Database, Store, PaymentOrder, pending, expired}
use solsight_api.Billing.Payment.{PaymentTransferEvent, parse_order_id_from_memo, status_beq}
use solsight_api.Billing.Payment.Orders.{complete_order}

module _ (db : Database) where
  -- `UPDATE payment_orders SET "status" = 'expired' WHERE "status" = 'pending' AND "expiresAt" < NOW()`
  abbrev pub expire_order : ℕ → PaymentOrder → PaymentOrder
  expire_order now o =
      if status_beq o.status pending && ltb o.expires_at now
      then record o { status = expired }
      else o

  -- `reconcile`, every minute
  unfoldable pub expire_pending_orders : ℕ → Store db → Store db
  expire_pending_orders now s = record s {
    orders = db.orders.update_all (expire_order now) s.orders;
  }

  -- `!merchantWallet || event.to_wallet !== merchantWallet`
  abbrev pub pays_merchant : Option String → String → Bool
  pays_merchant none to_wallet = false
  pays_merchant (some wallet) to_wallet = not (is_blank wallet) && to_wallet == wallet

  -- The order that the memo names; an empty memo, or an empty name, is none.
  unfoldable pub order_of_memo : Option String → Option String
  order_of_memo none = none
  order_of_memo (some memo) = if is_blank memo then none else elim (parse_order_id_from_memo memo) [
    | none ↦ none
    | some id ↦ if is_blank id then none else some id
  ]

  -- `event.network ?? clusterFromChannel(channel)`
  abbrev pub event_cluster : Option Cluster → String → Option Cluster
  event_cluster (some network) channel = some network
  event_cluster none channel = cluster_from_channel channel

  -- The state afterwards: whatever `completeOrder` throws is caught.
  credit_transfer : Option String → String → ℕ → Store db → Store db
  credit_transfer none signature now s = s
  credit_transfer (some order_id) signature now s = (complete_order db order_id signature now s).1

  -- `none` is the rejection on a channel that names no network.
  unfoldable pub handle :
      Option String → PaymentTransferEvent → String → ℕ → Store db → Option (Store db)
  unfolding order_of_memo credit_transfer
  handle merchant_wallet event channel now s =
      if pays_merchant merchant_wallet event.to_wallet
      then elim (event_cluster event.network channel) [
        | none ↦ none
        | some cluster ↦ some (credit_transfer (order_of_memo event.memo) event.signature now s)
      ]
      else some s

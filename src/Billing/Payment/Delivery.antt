-- ===== src/Billing/Payment/Delivery.antt =====
-- payment-transfer.handler.ts: which reported transfers are credited, and to whom.
use mathlib.Core.Option
use text.Mathlib.TextLemmas.{cons-append}
use solsight_api.Prelude.{
  ℕ, ◌<◌, String, true, false, Option, some, Result, ◌≡◌, refl, sym, ◌∙◌, arith, ap,
}
use solsight_api.Prelude.Text.{is_blank, strip_prefix-append}
use solsight_api.Cluster.{Cluster}
use solsight_api.Billing.Entities.{Database, Store, PaymentOrder, pending}
use solsight_api.Billing.Payment.{
  BillingError, CompleteOrderResult, PaymentTransferEvent, build_order_memo,
  parse_order_id_from_memo, status_beq,
}
use solsight_api.Billing.Payment.Orders.{complete_order}
use solsight_api.Billing.Payment.Completion.{
  Completes, missing, not_pending, signature_used, pays, complete_order-Completes,
}
use solsight_api.Billing.Payment.Transfers.{
  expire_order, expire_pending_orders, pays_merchant, order_of_memo, handle,
}

-- Parsing gives back the order that a memo was built for.
pub parse-build_order_memo :
    (id : String) → parse_order_id_from_memo (build_order_memo id) ≡ some id
unfolding parse_order_id_from_memo build_order_memo
parse-build_order_memo id = strip_prefix-append "PAY:" id

memo_not_blank : (id : String) → is_blank (build_order_memo id) ≡ false
unfolding build_order_memo
memo_not_blank id = rw cons-append

module _ (db : Database) where
  -- A memo that names an order names it to the handler too.
  pub order_of_memo-build_order_memo :
      (id : String) → is_blank id ≡ false → order_of_memo db (some (build_order_memo id)) ≡ some id
  unfolding order_of_memo
  order_of_memo-build_order_memo id full =
      ground (arith, parse-build_order_memo id, memo_not_blank id)

  -- A transfer to the merchant whose memo names an order
  pub record NamesOrder (merchant : Option String) (ev : PaymentTransferEvent) (id : String)
      : Type 0 where
    pub to_merchant : pays_merchant db merchant ev.to_wallet ≡ true
    pub reported : (n : Cluster) × (ev.network ≡ some n)
    pub named : ev.memo ≡ some (build_order_memo id)
    pub id_full : is_blank id ≡ false

  handle_lem :
      (merchant : Option String) (ev : PaymentTransferEvent) (channel id : String) (now : ℕ)
      (s : Store db)
      → NamesOrder merchant ev id
      → handle db merchant ev channel now s ≡ some (complete_order db id ev.signature now s).1
  unfolding handle
  handle_lem merchant ev channel id now s n =
      ground (arith, order_of_memo-build_order_memo id n.id_full)

  closed_lem :
      (id signature : String) (now : ℕ) (s : Store db) (o : PaymentOrder)
      {r : Result BillingError CompleteOrderResult × Store db}
      → db.orders.find id s.orders ≡ some o
      → status_beq o.status pending ≡ false
      → Completes db id signature now s r
      → r.1 ≡ s
  closed_lem id signature now s o e p (missing e') = refl
  closed_lem id signature now s o e p (not_pending o' e' n) = refl
  closed_lem id signature now s o e p (signature_used o' other e' p' a f t) = refl
  closed_lem id signature now s o e p (pays o' orders credits e' p' f mine others mb ob) =
      let same : some o ≡ some o' = sym e ∙ e' in absurd (cc (same, p, p'))

  find-expire_pending_orders :
      (id : String) (now : ℕ) (s : Store db)
      → db.orders.find id (expire_pending_orders db now s).orders
        ≡ Option.map (expire_order db now) (db.orders.find id s.orders)
  unfolding expire_pending_orders
  find-expire_pending_orders id now s =
      db.orders.find-update_all (expire_order db now) id s.orders (λ o. ground arith)

  -- A payment that is reported after its order has expired changes nothing: it is never credited.
  pub handle_expired :
      (merchant : Option String) (ev : PaymentTransferEvent) (channel id : String) (now later : ℕ)
      (s : Store db) (o : PaymentOrder)
      → NamesOrder merchant ev id
      → db.orders.find id s.orders ≡ some o
      → o.status ≡ pending
      → o.expires_at < now
      → handle db merchant ev channel later (expire_pending_orders db now s)
        ≡ some (expire_pending_orders db now s)
  handle_expired merchant ev channel id now later s o n e p past =
      let t = expire_pending_orders db now s in
      let gone : db.orders.find id t.orders ≡ some (expire_order db now o) =
        find-expire_pending_orders id now s ∙ rw e refl in
      let closed : status_beq (expire_order db now o).status pending ≡ false = ground (arith, p) in
      handle_lem merchant ev channel id later t n
      ∙ ap some (
          closed_lem id ev.signature later t (expire_order db now o) gone closed
            (complete_order-Completes db id ev.signature later t))

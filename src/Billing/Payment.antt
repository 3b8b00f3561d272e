-- ===== src/Billing/Payment.antt =====
-- modules/billing/services/payment.service.ts and payment-reconcile.service.ts,
-- handlers/payment-transfer.handler.ts, constants/memo.constant.ts: an order is created pending, is
-- paid on chain with a memo that names it, and is completed once, by whichever of the two ways in
-- comes first, or expires.
pub mod Orders
pub mod Completion
pub mod Creation
pub mod Delivery
pub mod Transfers
use solsight_api.Prelude.{
  ℕ, String, Bool, true, false, Option, none, some, Result, ok, err, ◌>>=◌, or_throw, if◌then◌else◌,
  string_eq,
}
use solsight_api.Prelude.Text.{◌⊕◌, is_blank, strip_prefix}
use solsight_api.Cluster.{Cluster}
use solsight_api.Billing.Entities.{PaymentOrderStatus, pending, completed, expired}

-- What the service throws. `rpc_failed` is the rejection of a call of the chain, and
-- `duplicate_signature` that of a statement that would write one signature into two orders.
pub data BillingError : Type 0 where
  invalid_package too_many_orders order_not_found order_expired : BillingError
  cannot_submit cannot_refresh : PaymentOrderStatus → BillingError
  merchant_unset invalid_wallet rpc_failed duplicate_signature : BillingError

pub record Blockhash : Type 0 where
  pub blockhash : String
  pub last_valid_block_height : ℕ

-- The chain and its client libraries: the keys that they accept, the latest block hash, the message
-- with a transfer and a memo, serialized, and the signature of a transaction that was confirmed.
pub record Solana : Type 0 where
  pub valid_key : String → Bool
  pub latest_blockhash : Cluster → Option Blockhash
  pub transfer_with_memo : String → String → ℕ → String → Blockhash → String
  pub submit_and_confirm : Cluster → String → Option String

pub record BuiltPaymentTransaction : Type 0 where
  pub transaction : String
  pub blockhash : String
  pub last_valid_block_height : ℕ

pub record CreatedPaymentOrder : Type 0 where
  pub order_id : String
  pub package_code : String
  pub credits : ℕ
  pub amount_lamports : ℕ
  pub expires_at : ℕ
  pub built : BuiltPaymentTransaction

pub record SubmitPaymentResult : Type 0 where
  pub credits_added : ℕ
  pub already_processed : Bool

-- `{ alreadyProcessed: true }`, or `false` with the credits
pub data CompleteOrderResult : Type 0 where
  already_processed : CompleteOrderResult
  credited : ℕ → CompleteOrderResult

pub record PaymentTransferEvent : Type 0 where
  pub event_id : String
  pub from_wallet : String
  pub to_wallet : String
  pub lamports : ℕ
  pub memo : Option String
  pub slot : ℕ
  pub signature : String
  pub timestamp : ℕ
  pub network : Option Cluster

unfoldable pub build_order_memo : String → String
build_order_memo order_id = "PAY:" ⊕ order_id

unfoldable pub parse_order_id_from_memo : String → Option String
parse_order_id_from_memo memo = strip_prefix "PAY:" memo

abbrev pub status_beq : PaymentOrderStatus → PaymentOrderStatus → Bool
status_beq pending pending = true
status_beq completed completed = true
status_beq expired expired = true
status_beq PaymentOrderStatus.failed PaymentOrderStatus.failed = true
status_beq _ _ = false

module _ (chain : Solana) (merchant_wallet : Option String) where
  parse_public_key : String → Result BillingError String
  parse_public_key value = if chain.valid_key value then ok value else err invalid_wallet

  -- An empty setting counts as none.
  get_merchant_wallet : Result BillingError String
  unfolding parse_public_key
  get_merchant_wallet = elim merchant_wallet [
    | none ↦ err merchant_unset
    | some value ↦ if is_blank value then err merchant_unset else parse_public_key value
  ]

  unfoldable pub build_payment_transaction :
      Cluster → String → ℕ → String → Result BillingError BuiltPaymentTransaction
  unfolding parse_public_key get_merchant_wallet
  build_payment_transaction cluster wallet_address lamports memo = do
    owner ← parse_public_key wallet_address
    latest ← or_throw (chain.latest_blockhash cluster) rpc_failed
    merchant ← get_merchant_wallet
    ok (record {
      transaction = chain.transfer_with_memo owner merchant lamports memo latest;
      blockhash = latest.blockhash;
      last_valid_block_height = latest.last_valid_block_height;
    })

-- ===== src/Billing/Entities.antt =====
-- modules/billing/entities, types and constants: the three tables and the results of the services.
-- Times are milliseconds since the epoch, and a `date` column is the number of its day. Counts,
-- balances and credits are natural numbers: the 32-bit limit of the columns is left out.
use solsight_api.Prelude.{ℕ, String, Option, some, none, Table, if◌then◌else◌, ◌==◌, string_eq}
use solsight_api.Cluster.{Cluster}

pub record FeatureUsage : Type 0 where
  pub user_id : String
  pub usage_date : ℕ
  pub count : ℕ

pub record UserCredit : Type 0 where
  pub user_id : String
  pub balance : ℕ
  pub updated_at : ℕ

pub data PaymentOrderStatus : Type 0 where
  pending completed expired failed : PaymentOrderStatus

pub record PaymentOrder : Type 0 where
  pub id : String
  pub user_id : String
  pub package_code : String
  pub credits : ℕ
  pub amount_lamports : ℕ
  pub network : Cluster
  pub status : PaymentOrderStatus
  pub tx_signature : Option String
  pub memo : String
  pub created_at : ℕ
  pub expires_at : ℕ
  pub completed_at : Option ℕ

abbrev pub usage_key : FeatureUsage → String × ℕ
usage_key r = (r.user_id, r.usage_date)

abbrev pub credit_key : UserCredit → String
credit_key r = r.user_id

abbrev pub order_key : PaymentOrder → String
order_key r = r.id

-- The tables of the database that the module uses.
pub record Database : Type 1 where
  pub usage : Table usage_key
  pub credits : Table credit_key
  pub orders : Table order_key

pub record Store (db : Database) : Type 0 where
  pub usage : db.usage.State
  pub credits : db.credits.State
  pub orders : db.orders.State

pub data QuotaSource : Type 0 where
  free paid : QuotaSource

pub data QuotaConsumptionResult : Type 0 where
  allowed : QuotaSource → QuotaConsumptionResult
  refused : QuotaConsumptionResult

pub record QuotaStatus : Type 0 where
  pub free_used : ℕ
  pub free_limit : ℕ
  pub paid_credits : ℕ
  pub resets_at : ℕ

pub record PaymentPackage : Type 0 where
  pub code : String
  pub credits : ℕ
  pub lamports : ℕ

-- `PACKAGES[code]`
unfoldable pub packages : String → Option PaymentPackage
packages code =
    if code == "credits_50"
    then some (record { code = "credits_50"; credits = 50; lamports = 50000000 })
    else if code == "credits_120"
    then some (record { code = "credits_120"; credits = 120; lamports = 100000000 })
    else none

abbrev pub order_expiry_minutes : ℕ
order_expiry_minutes = 30

abbrev pub order_rate_limit_per_hour : ℕ
order_rate_limit_per_hour = 10

-- ===== src/Billing/Quota.antt =====
-- modules/billing/services/quota.service.ts. Each SQL statement is one function on the tables: its
-- `WHERE` is tested on the row as it stands when the statement runs.
pub mod Statements
pub mod Contract
pub mod Reset
use solsight_api.Prelude.{
  ℕ, ◌+◌, ◌-◌, ◌*◌, ◌/◌, String, Option, none, some, Bool, ◌||◌, ltb, leb, min, if◌then◌else◌,
  or_else,
}
use mathlib.Core.Option
use solsight_api.Billing.Entities.{
  Database, Store, QuotaSource, free, paid, QuotaConsumptionResult, allowed, refused, QuotaStatus,
}

abbrev pub free_daily_quota_limit : ℕ
free_daily_quota_limit = 10

abbrev pub day_ms : ℕ
day_ms = 24 * 60 * 60 * 1000

abbrev pub utc7_ms : ℕ
utc7_ms = 7 * 60 * 60 * 1000

-- `getUsageDateUtc7`
unfoldable pub usage_date_utc7 : ℕ → ℕ
usage_date_utc7 now = (now + utc7_ms) / day_ms

-- `getNextResetAtUtc7`
unfoldable pub next_reset_at_utc7 : ℕ → ℕ
next_reset_at_utc7 now = ((now + utc7_ms) / day_ms + 1) * day_ms - utc7_ms

module _ (db : Database) where
  -- The `INSERT … ON CONFLICT DO UPDATE … WHERE … RETURNING` on `feature_usage`: the new count, if
  -- a row was written.
  unfoldable pub use_free : String → ℕ → ℕ → db.usage.State → Option (ℕ × db.usage.State)
  use_free user_id date amount s = elim (db.usage.find (user_id, date) s) [
    | none ↦
        let count = min amount free_daily_quota_limit in
        some
          (count, db.usage.save (record { user_id = user_id; usage_date = date; count = count }) s)
    | some row ↦
        if leb (row.count + amount) free_daily_quota_limit
        then some (row.count + amount, db.usage.save (record row { count = row.count + amount }) s)
        else none
  ]

  -- The `UPDATE … WHERE "balance" >= $1 RETURNING` on `user_credits`: the new balance, if the row
  -- was updated.
  unfoldable pub use_paid : String → ℕ → ℕ → db.credits.State → Option (ℕ × db.credits.State)
  use_paid user_id amount now s = elim (db.credits.find user_id s) [
    | none ↦ none
    | some row ↦
        if leb amount row.balance
        then some (
          row.balance - amount,
          db.credits.save (record row { balance = row.balance - amount; updated_at = now }) s,
        )
        else none
  ]

  -- The two results in turn: the second statement counts only where the first wrote nothing.
  unfoldable pub settle :
      Option (ℕ × db.usage.State)
      → Option (ℕ × db.credits.State)
      → Store db
      → QuotaConsumptionResult × Store db
  settle (some (count, usage)) _ s = (allowed free, record s { usage = usage })
  settle none (some (balance, credits)) s = (allowed paid, record s { credits = credits })
  settle none none s = (refused, s)

  unfoldable pub consume_quota : String → ℕ → ℕ → Store db → QuotaConsumptionResult × Store db
  consume_quota user_id amount now s =
      settle (use_free user_id (usage_date_utc7 now) amount s.usage)
        (use_paid user_id amount now s.credits) s

  unfoldable pub refund_quota : String → QuotaSource → ℕ → ℕ → Store db → Store db
  refund_quota user_id free amount now s =
      elim (db.usage.find (user_id, usage_date_utc7 now) s.usage) [
        | none ↦ s
        | some row ↦ record s {
          usage = db.usage.save (record row { count = row.count - amount }) s.usage;
        }
      ]
  refund_quota user_id paid amount now s = elim (db.credits.find user_id s.credits) [
    | none ↦ s
    | some row ↦ record s {
      credits =
          db.credits.save (record row { balance = row.balance + amount; updated_at = now })
            s.credits;
    }
  ]

  -- `usage?.count ?? 0`
  unfoldable pub free_used : String → ℕ → db.usage.State → ℕ
  free_used user_id date s = or_else (Option.map (λ r. r.count) (db.usage.find (user_id, date) s)) 0

  -- `credit?.balance ?? 0`
  unfoldable pub paid_credits : String → db.credits.State → ℕ
  paid_credits user_id s = or_else (Option.map (λ r. r.balance) (db.credits.find user_id s)) 0

  unfoldable pub get_quota_status : String → ℕ → Store db → QuotaStatus
  unfolding free_used paid_credits
  get_quota_status user_id now s = record {
    free_used = free_used user_id (usage_date_utc7 now) s.usage;
    free_limit = free_daily_quota_limit;
    paid_credits = paid_credits user_id s.credits;
    resets_at = next_reset_at_utc7 now;
  }

  unfoldable pub has_quota_available : String → ℕ → Store db → Bool
  unfolding get_quota_status
  has_quota_available user_id now s =
      let status = get_quota_status user_id now s in
      ltb status.free_used status.free_limit || ltb 0 status.paid_credits

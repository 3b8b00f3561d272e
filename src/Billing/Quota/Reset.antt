-- ===== src/Billing/Quota/Reset.antt =====
-- quota.service.ts: the day of the quota, which changes at midnight in Vietnam (UTC+7).
use solsight_api.Prelude.{ℕ, ◌+◌, ◌≤◌, ◌<◌, ◌≡◌, arith}
use solsight_api.Billing.Quota.{day_ms, usage_date_utc7, next_reset_at_utc7}

-- The announced reset is in the future, at most a day away, and is the very first instant of the
-- next quota day: every instant from now until then falls on the present day.
pub next_reset_at_utc7_bounds :
    (now : ℕ)
    → let reset = next_reset_at_utc7 now in
      (now < reset)
      × (reset ≤ now + day_ms)
      × (usage_date_utc7 reset ≡ usage_date_utc7 now + 1)
      × ((t : ℕ) → now ≤ t → t < reset → usage_date_utc7 t ≡ usage_date_utc7 now)
unfolding next_reset_at_utc7 usage_date_utc7
next_reset_at_utc7_bounds now = (omega arith, omega arith, omega arith, λ t le lt. omega arith)

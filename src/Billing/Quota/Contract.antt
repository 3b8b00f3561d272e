-- ===== src/Billing/Quota/Contract.antt =====
-- quota.service.ts: the two statements of `consumeQuota` implement one contract on the account of
-- the user, and leave every other account alone.
use solsight_api.Prelude.{
  ℕ, ◌+◌, ◌-◌, ◌≤◌, ◌<◌, String, Option, none, true, ◌≡◌, refl, ap, ◌≢◌, ◌↔◌, arith, leb, min,
  if◌then◌else◌,
}
use solsight_api.Billing.Entities.{
  FeatureUsage, Database, Store, QuotaSource, free, paid, QuotaConsumptionResult, allowed, refused,
}
use solsight_api.Billing.Quota.{
  free_daily_quota_limit, usage_date_utc7, use_free, settle, consume_quota, refund_quota, free_used,
  paid_credits, has_quota_available,
}
use solsight_api.Billing.Quota.Statements.{
  UseFree, fits, full, UsePaid, covers, short, use_free-UseFree, use_paid-UsePaid,
  free_used-save_self, free_used-refund, paid_credits-refund, credits-refund_free,
  usage-refund_paid,
}

-- The account of one user on one day, as the service shows it.
pub record Account : Type 0 where
  pub used : ℕ
  pub credits : ℕ

-- The contract: free uses first, then credits, else nothing.
abbrev pub spend : ℕ → Account → QuotaConsumptionResult × Account
spend amount a =
    if leb (a.used + amount) free_daily_quota_limit
    then (allowed free, record a { used = a.used + amount })
    else if leb amount a.credits
    then (allowed paid, record a { credits = a.credits - amount })
    else (refused, a)

module _ (db : Database) where
  abbrev pub account : String → ℕ → Store db → Account
  account u d s = record { used = free_used db u d s.usage; credits = paid_credits db u s.credits }

  settle-spend :
      (u : String) (d amount : ℕ) (s : Store db) {f : Option (ℕ × db.usage.State)}
      {p : Option (ℕ × db.credits.State)}
      → 0 < amount
      → amount ≤ free_daily_quota_limit
      → UseFree db u d amount s.usage f
      → UsePaid db u amount s.credits p
      → let (r, s') = settle db f p s in
        let (r', a) = spend amount (account u d s) in (r ≡ r') × (account u d s' ≡ a)
  unfolding settle
  settle-spend u d amount s pos small (fits n t e le now frame) _ = ground (arith, e small)
  settle-spend u d amount s pos small (full lt) (covers n t e now holds frame) = ground arith
  settle-spend u d amount s pos small (full lt) (short gt) = ground (arith, gt pos)

  -- For an amount from 1 to the daily limit, `consumeQuota` answers and changes the account of the
  -- user exactly as the contract says.
  pub consume_quota-spend :
      (u : String) (amount now : ℕ) (s : Store db)
      → 0 < amount
      → amount ≤ free_daily_quota_limit
      → let (r, s') = consume_quota db u amount now s in
        let (r', a) = spend amount (account u (usage_date_utc7 now) s) in
        (r ≡ r') × (account u (usage_date_utc7 now) s' ≡ a)
  unfolding consume_quota
  consume_quota-spend u amount now s pos small =
      settle-spend u (usage_date_utc7 now) amount s pos small
        (use_free-UseFree db u _ amount s.usage) (use_paid-UsePaid db u amount now s.credits)

  settle_others :
      (u v : String) (d c amount : ℕ) (s : Store db) {f : Option (ℕ × db.usage.State)}
      {p : Option (ℕ × db.credits.State)}
      → u ≢ v
      → UseFree db u d amount s.usage f
      → UsePaid db u amount s.credits p
      → account v c (settle db f p s).1 ≡ account v c s
  unfolding settle
  settle_others u v d c amount s ne (fits n t e le now frame) _ =
      ground (arith, frame v c (λ q. ne (ap (λ k. k.0) q)))
  settle_others u v d c amount s ne (full lt) (covers n t e now holds frame) =
      ground (arith, frame v ne)
  settle_others u v d c amount s ne (full lt) (short gt) = refl

  -- No other user's account changes, on any day.
  pub consume_quota_others :
      (u v : String) (amount now c : ℕ) (s : Store db)
      → u ≢ v
      → account v c (consume_quota db u amount now s).1 ≡ account v c s
  unfolding consume_quota
  consume_quota_others u v amount now c s ne =
      settle_others u v (usage_date_utc7 now) c amount s ne (use_free-UseFree db u _ amount s.usage)
        (use_paid-UsePaid db u amount now s.credits)

  -- The cheap test made before the work is done agrees with the charge made after it.
  has_quota_available_iff :
      (u : String) (now : ℕ) (s : Store db)
      → (has_quota_available db u now s ≡ true) ↔ ((consume_quota db u 1 now s).0 ≢ refused)
  unfolding has_quota_available
  has_quota_available_iff u now s =
      ground (arith, consume_quota-spend u 1 now s (omega arith) (omega arith))

  settle-refund :
      (u : String) (amount now : ℕ) (src : QuotaSource) (s : Store db)
      {f : Option (ℕ × db.usage.State)} {p : Option (ℕ × db.credits.State)}
      → amount ≤ free_daily_quota_limit
      → UseFree db u (usage_date_utc7 now) amount s.usage f
      → UsePaid db u amount s.credits p
      → (settle db f p s).0 ≡ allowed src
      → account u (usage_date_utc7 now) (refund_quota db u src amount now (settle db f p s).1)
        ≡ account u (usage_date_utc7 now) s
  unfolding settle
  settle-refund u amount now free s small (fits n t e le now_used frame) _ h = ground (
    arith,
    e small,
    free_used-refund db u amount now (record s { usage = t }),
    credits-refund_free db u amount now (record s { usage = t }),
  )
  settle-refund u amount now paid s small (fits n t e le now_used frame) _ h = cc
  settle-refund u amount now free s small (full lt) (covers n t e left holds frame) h = cc
  settle-refund u amount now paid s small (full lt) (covers n t e left holds frame) h = ground (
    arith,
    paid_credits-refund db u amount now (record s { credits = t }) holds,
    usage-refund_paid db u amount now (record s { credits = t }),
  )
  settle-refund u amount now src s small (full lt) (short gt) h = cc

  -- On the same day, refunding what `consumeQuota` took from the source that it named restores the
  -- account, for an amount from 1 to the daily limit.
  pub refund_quota-consume_quota :
      (u : String) (amount now : ℕ) (src : QuotaSource) (s : Store db)
      → 0 < amount
      → amount ≤ free_daily_quota_limit
      → (consume_quota db u amount now s).0 ≡ allowed src
      → account u
          (usage_date_utc7 now)
          (refund_quota db u src amount now (consume_quota db u amount now s).1)
        ≡ account u (usage_date_utc7 now) s
  unfolding consume_quota
  refund_quota-consume_quota u amount now src s pos small h =
      settle-refund u amount now src s small (use_free-UseFree db u _ amount s.usage)
        (use_paid-UsePaid db u amount now s.credits) h

  -- A day's first use passes the free quota whatever its amount, and is recorded as the limit.
  consume_quota_first_use :
      (u : String) (amount now : ℕ) (s : Store db)
      → db.usage.find (u, usage_date_utc7 now) s.usage ≡ none
      → free_daily_quota_limit ≤ amount
      → ((consume_quota db u amount now s).0 ≡ allowed free)
        × (account u (usage_date_utc7 now) (consume_quota db u amount now s).1
            ≡ record { used = free_daily_quota_limit; credits = paid_credits db u s.credits })
  unfolding consume_quota settle use_free
  consume_quota_first_use u amount now s e over =
      let d = usage_date_utc7 now in
      let row : FeatureUsage = record {
        user_id = u;
        usage_date = d;
        count = free_daily_quota_limit;
      } in
      let least : min amount free_daily_quota_limit ≡ free_daily_quota_limit = omega arith in
      rw (e, settle, use_free, least)
        (refl, ground (arith, free_used-save_self db u d row s.usage refl))

-- ===== src/Billing/Quota/Statements.antt =====
-- quota.service.ts: how the SQL statements of `consumeQuota` end, and what reading gives after them,
-- over any database that keeps the laws of its tables.
use solsight_api.Prelude.{
  ℕ, ◌+◌, ◌-◌, ◌≤◌, ◌<◌, String, Option, none, some, ◌≡◌, refl, sym, ◌∙◌, ◌≢◌, arith, leb, min,
  if◌then◌else◌, is_some, true, Bool-cases, Option-cases, inl, inr,
}
use solsight_api.Billing.Entities.{FeatureUsage, UserCredit, Database, Store, usage_key, free, paid}
use solsight_api.Billing.Quota.{
  free_daily_quota_limit, usage_date_utc7, use_free, use_paid, refund_quota, free_used,
  paid_credits,
}

module _ (db : Database) where
  -- What reading gives after a row was written.
  pub free_used-save_self :
      (u : String) (d : ℕ) (r : FeatureUsage) (s : db.usage.State)
      → usage_key r ≡ (u, d)
      → free_used db u d (db.usage.save r s) ≡ r.count
  unfolding free_used
  free_used-save_self u d r s k = rw (db.usage.find-save_self (u, d) r s k)

  pub free_used-save_ne :
      (v : String) (c : ℕ) (r : FeatureUsage) (s : db.usage.State)
      → usage_key r ≢ (v, c)
      → free_used db v c (db.usage.save r s) ≡ free_used db v c s
  unfolding free_used
  free_used-save_ne v c r s k = rw (db.usage.find-save_ne (v, c) r s k)

  pub paid_credits-save_self :
      (u : String) (r : UserCredit) (s : db.credits.State)
      → r.user_id ≡ u
      → paid_credits db u (db.credits.save r s) ≡ r.balance
  unfolding paid_credits
  paid_credits-save_self u r s k = rw (db.credits.find-save_self u r s k)

  pub paid_credits-save_ne :
      (v : String) (r : UserCredit) (s : db.credits.State)
      → r.user_id ≢ v
      → paid_credits db v (db.credits.save r s) ≡ paid_credits db v s
  unfolding paid_credits
  paid_credits-save_ne v r s k = rw (db.credits.find-save_ne v r s k)

  -- How the two statements of `consumeQuota` end.
  pub data UseFree (u : String) (d amount : ℕ) (s : db.usage.State)
      : Option (ℕ × db.usage.State) → Type 0 where
    fits :
        (n : ℕ) (s' : db.usage.State)
        → (amount ≤ free_daily_quota_limit → n ≡ free_used db u d s + amount)
        → n ≤ free_daily_quota_limit
        → free_used db u d s' ≡ n
        → ((v : String) (c : ℕ)
            → ◌≢◌ {A = String × ℕ} (u, d) (v, c)
            → free_used db v c s' ≡ free_used db v c s)
        → UseFree u d amount s (some (n, s'))
    full : free_daily_quota_limit < free_used db u d s + amount → UseFree u d amount s none

  UseFree-row :
      (u : String) (d amount : ℕ) (s : db.usage.State) (r : FeatureUsage)
      → usage_key r ≡ (u, d)
      → free_used db u d s ≡ r.count
      → let new = record r { count = r.count + amount } in
        UseFree u d amount s (
          if leb (r.count + amount) free_daily_quota_limit
          then some (r.count + amount, db.usage.save new s)
          else none)
  UseFree-row u d amount s r k so_far =
      let new = record r { count = r.count + amount } in
      elim (Bool-cases (leb (r.count + amount) free_daily_quota_limit)) [
        | inl in_limit ↦ rw in_limit (
            fits _ (db.usage.save new s) (λ _. omega (arith, so_far)) (ground arith)
              (free_used-save_self u d new s k)
              (λ v c ne. free_used-save_ne v c new s (λ q. ne (sym k ∙ q))))
        | inr over ↦ rw over (full (ground (arith, so_far)))
      ]

  pub use_free-UseFree :
      (u : String) (d amount : ℕ) (s : db.usage.State)
      → UseFree u d amount s (use_free db u d amount s)
  unfolding use_free
  use_free-UseFree u d amount s = elim (Option-cases (db.usage.find (u, d) s)) [
    | inl e ↦
        let new : FeatureUsage = record {
          user_id = u;
          usage_date = d;
          count = min amount free_daily_quota_limit;
        } in
        let none_used : free_used db u d s ≡ 0 = unfold free_used in rw e in
        rw (e, use_free)
          (fits _ (db.usage.save new s) (λ small. omega (arith, none_used)) (omega arith)
            (free_used-save_self u d new s refl) (λ v c ne. free_used-save_ne v c new s ne))
    | inr (r, e) ↦
        rw (e, use_free)
          (UseFree-row u d amount s r (db.usage.find-key (u, d) s r e) (unfold free_used in rw e))
  ]

  pub data UsePaid (u : String) (amount : ℕ) (s : db.credits.State)
      : Option (ℕ × db.credits.State) → Type 0 where
    covers :
        (n : ℕ) (s' : db.credits.State)
        → n + amount ≡ paid_credits db u s
        → paid_credits db u s' ≡ n
        → is_some (db.credits.find u s') ≡ true
        → ((v : String) → u ≢ v → paid_credits db v s' ≡ paid_credits db v s)
        → UsePaid u amount s (some (n, s'))
    short : (0 < amount → paid_credits db u s < amount) → UsePaid u amount s none

  UsePaid-row :
      (u : String) (amount now : ℕ) (s : db.credits.State) (r : UserCredit)
      → r.user_id ≡ u
      → paid_credits db u s ≡ r.balance
      → let new = record r { balance = r.balance - amount; updated_at = now } in
        UsePaid u amount s
          (if leb amount r.balance then some (r.balance - amount, db.credits.save new s) else none)
  UsePaid-row u amount now s r k has =
      let new = record r { balance = r.balance - amount; updated_at = now } in
      elim (Bool-cases (leb amount r.balance)) [
        | inl enough ↦ rw enough (
            covers _ (db.credits.save new s) (ground (arith, has))
              (paid_credits-save_self u new s k) (rw (db.credits.find-save_self u new s k))
              (λ v ne. paid_credits-save_ne v new s (λ q. ne (sym k ∙ q))))
        | inr little ↦ rw little (short (λ pos. ground (arith, has)))
      ]

  pub use_paid-UsePaid :
      (u : String) (amount now : ℕ) (s : db.credits.State)
      → UsePaid u amount s (use_paid db u amount now s)
  unfolding use_paid
  use_paid-UsePaid u amount now s = elim (Option-cases (db.credits.find u s)) [
    | inl e ↦ rw (e, use_paid) (short (λ pos. unfold paid_credits in rw e pos))
    | inr (r, e) ↦
        rw (e, use_paid)
          (UsePaid-row u amount now s r (db.credits.find-key u s r e) (unfold paid_credits in rw e))
  ]

  -- The two refunds: a free one stops at 0, a paid one needs the row of the user.
  pub free_used-refund :
      (u : String) (amount now : ℕ) (s : Store db)
      → free_used db u (usage_date_utc7 now) (refund_quota db u free amount now s).usage
        ≡ free_used db u (usage_date_utc7 now) s.usage - amount
  unfolding refund_quota
  free_used-refund u amount now s =
      elim (Option-cases (db.usage.find (u, usage_date_utc7 now) s.usage)) [
        | inl e ↦
            let zero_used : free_used db u (usage_date_utc7 now) s.usage ≡ 0 =
              unfold free_used in rw e in
            rw (e, refund_quota) (omega (arith, zero_used))
        | inr (r, e) ↦
            let k = db.usage.find-key (u, usage_date_utc7 now) s.usage r e in
            let so_far : free_used db u (usage_date_utc7 now) s.usage ≡ r.count =
              unfold free_used in rw e in
            rw (e, refund_quota)
              (rw so_far (
                free_used-save_self u (usage_date_utc7 now) (record r { count = r.count - amount })
                  s.usage k))
      ]

  pub paid_credits-refund :
      (u : String) (amount now : ℕ) (s : Store db)
      → is_some (db.credits.find u s.credits) ≡ true
      → paid_credits db u (refund_quota db u paid amount now s).credits
        ≡ paid_credits db u s.credits + amount
  unfolding refund_quota
  paid_credits-refund u amount now s h = elim (Option-cases (db.credits.find u s.credits)) [
    | inl e ↦ cc (h, e)
    | inr (r, e) ↦
        let so_far : paid_credits db u s.credits ≡ r.balance = unfold paid_credits in rw e in
        rw (e, refund_quota)
          (rw so_far (
            paid_credits-save_self u (record r { balance = r.balance + amount; updated_at = now })
              s.credits (db.credits.find-key u s.credits r e)))
  ]

  pub credits-refund_free :
      (u : String) (amount now : ℕ) (s : Store db)
      → (refund_quota db u free amount now s).credits ≡ s.credits
  unfolding refund_quota
  credits-refund_free u amount now s = ground arith

  pub usage-refund_paid :
      (u : String) (amount now : ℕ) (s : Store db)
      → (refund_quota db u paid amount now s).usage ≡ s.usage
  unfolding refund_quota
  usage-refund_paid u amount now s = ground arith

-- ===== src/Billing/History/Balance.antt =====
-- The credits of a user over time: nothing is lost and nothing is made up.
use solsight_api.Prelude.{
  ℕ, ◌+◌, String, Bool, true, false, ◌&&◌, Option, none, some, Result, ok, ◌≡◌, refl, arith, inl,
  inr, Option-cases, Bool-cases, eq→≡, eq_self, ◌==◌, string_eq, if◌then◌else◌, List, [], ◌∷◌, ap,
  is_some,
}
use solsight_api.Billing.Entities.{
  Database, Store, PaymentOrder, free, paid, QuotaConsumptionResult, allowed,
}
use solsight_api.Billing.Quota.{consume_quota, refund_quota, settle, paid_credits}
use solsight_api.Billing.Quota.Statements.{
  UseFree, fits, full, UsePaid, covers, short, use_free-UseFree, use_paid-UsePaid,
  paid_credits-save_ne, paid_credits-refund, credits-refund_free,
}
use solsight_api.Billing.Payment.{BillingError, CompleteOrderResult, credited}
use solsight_api.Billing.Payment.Orders.{complete_order}
use solsight_api.Billing.Payment.Transfers.{expire_pending_orders}
use solsight_api.Billing.Payment.Completion.{
  Completes, missing, not_pending, signature_used, pays, complete_order-Completes,
}
use solsight_api.Billing.History.{Event, consumes, refunds, completes, expires, step, run}

abbrev charge : QuotaConsumptionResult → ℕ → ℕ
charge (allowed paid) amount = amount
charge _ amount = 0

abbrev credits_in : Result BillingError CompleteOrderResult → ℕ
credits_in (ok (credited n)) = n
credits_in _ = 0

abbrev owned_by : String → Option PaymentOrder → Bool
owned_by u none = false
owned_by u (some o) = o.user_id == u

module _ (db : Database) where
  -- What a call takes from the credits of `u`, by its answer
  unfoldable pub spent : String → ℕ × Event → Store db → ℕ
  spent u (now, consumes v amount) s =
      if v == u then charge (consume_quota db v amount now s).0 amount else 0
  spent u _ s = 0

  -- What a call adds: a completed order of `u`, or a refund, which needs the row of the user
  unfoldable pub gained : String → ℕ × Event → Store db → ℕ
  gained u (now, completes j signature) s =
      if owned_by u (db.orders.find j s.orders)
      then credits_in (complete_order db j signature now s).0
      else 0
  gained u (now, refunds v paid amount) s =
      if v == u && is_some (db.credits.find v s.credits) then amount else 0
  gained u _ s = 0

  settle_balance :
      (u v : String) (d amount : ℕ) (s : Store db) {f : Option (ℕ × db.usage.State)}
      {p : Option (ℕ × db.credits.State)}
      → UseFree db v d amount s.usage f
      → UsePaid db v amount s.credits p
      → let (r, s') = settle db f p s in
        paid_credits db u s'.credits + (if v == u then charge r amount else 0)
        ≡ paid_credits db u s.credits
  unfolding settle
  settle_balance u v d amount s (fits n t e le now frame) _ = ground arith
  settle_balance u v d amount s (full lt) (covers n t e now holds frame) =
      elim (Bool-cases (v == u)) [
        | inl same ↦ rw (same, ← eq→≡ v u same) (omega arith)
        | inr other ↦ rw other (omega (arith, frame u (λ q. cc (other, eq_self u, q))))
      ]
  settle_balance u v d amount s (full lt) (short gt) = ground arith

  complete_balance :
      (u j signature : String) (now : ℕ) (s : Store db)
      {r : Result BillingError CompleteOrderResult × Store db}
      → Completes db j signature now s r
      → paid_credits db u r.1.credits
        ≡ paid_credits db u s.credits
          + (if owned_by u (db.orders.find j s.orders) then credits_in r.0 else 0)
  complete_balance u j signature now s (missing e) = rw e (omega arith)
  complete_balance u j signature now s (not_pending o e n) = ground arith
  complete_balance u j signature now s (signature_used o other e p a f t) = ground arith
  complete_balance u j signature now s (pays o orders credits e p f mine others mb ob) =
      rw e (elim (Bool-cases (o.user_id == u)) [
        | inl same ↦ rw (same, ← eq→≡ o.user_id u same) mb
        | inr other ↦ rw other (omega (arith, ob u (λ q. cc (other, eq_self u, q))))
      ])

  refund_balance :
      (u v : String) (amount now : ℕ) (s : Store db)
      → paid_credits db u (refund_quota db v paid amount now s).credits
        ≡ paid_credits db u s.credits
          + (if v == u && is_some (db.credits.find v s.credits) then amount else 0)
  unfolding refund_quota
  refund_balance u v amount now s = elim (Option-cases (db.credits.find v s.credits)) [
    | inl e ↦ rw (e, refund_quota) (ground arith)
    | inr (r, e) ↦ elim (Bool-cases (v == u)) [
      | inl same ↦
          let holds : is_some (db.credits.find v s.credits) ≡ true = rw e in
          let back = paid_credits-refund db v amount now s holds in
          rw (same, holds) (rw (← eq→≡ v u same) back)
      | inr other ↦
          rw (other, e, refund_quota)
            (omega (
              arith,
              paid_credits-save_ne db u
                  (record r { balance = r.balance + amount; updated_at = now }) s.credits
                  (λ q. cc (other, eq_self u, q, db.credits.find-key v s.credits r e)),
            ))
    ]
  ]

  consume_balance :
      (u v : String) (amount now : ℕ) (s : Store db)
      → paid_credits db u (consume_quota db v amount now s).1.credits
          + (if v == u then charge (consume_quota db v amount now s).0 amount else 0)
        ≡ paid_credits db u s.credits
  unfolding consume_quota
  consume_balance u v amount now s =
      settle_balance u v _ amount s (use_free-UseFree db v _ amount s.usage)
        (use_paid-UsePaid db v amount now s.credits)

  credits-expire_pending_orders :
      (now : ℕ) (s : Store db) → (expire_pending_orders db now s).credits ≡ s.credits
  unfolding expire_pending_orders
  credits-expire_pending_orders now s = refl

  step_balance :
      (u : String) (e : ℕ × Event) (s : Store db)
      → paid_credits db u (step db e s).credits + spent u e s
        ≡ paid_credits db u s.credits + gained u e s
  unfolding step spent gained
  step_balance u (now, consumes v amount) s = omega (arith, consume_balance u v amount now s)
  step_balance u (now, refunds v free amount) s =
      omega (arith, ap (paid_credits db u) (credits-refund_free db v amount now s))
  step_balance u (now, refunds v paid amount) s = omega (arith, refund_balance u v amount now s)
  step_balance u (now, completes j signature) s =
      omega (
        arith,
        complete_balance u j signature now s (complete_order-Completes db j signature now s),
      )
  step_balance u (now, expires) s =
      omega (arith, ap (paid_credits db u) (credits-expire_pending_orders now s))

  unfoldable pub total_spent : String → List (ℕ × Event) → Store db → ℕ
  total_spent u [] s = 0
  total_spent u (e ∷ es) s = spent u e s + total_spent u es (step db e s)

  unfoldable pub total_gained : String → List (ℕ × Event) → Store db → ℕ
  total_gained u [] s = 0
  total_gained u (e ∷ es) s = gained u e s + total_gained u es (step db e s)

  -- Over any history, the balance of a user at the end and what the answers charged to it add up to
  -- the balance at the start and what completed orders and refunds gave.
  pub run_balance :
      (u : String) (es : List (ℕ × Event)) (s : Store db)
      → paid_credits db u (run db es s).credits + total_spent u es s
        ≡ paid_credits db u s.credits + total_gained u es s
  unfolding run total_spent total_gained
  run_balance u [] s = refl
  run_balance u (e ∷ es) s = omega (arith, step_balance u e s, run_balance u es (step db e s))

-- ===== src/Billing/Payment/Completion.antt =====
-- payment.service.ts: what `completeOrder` does to the tables, on each of its branches.
use text.Mathlib.TextEquality.{eq_iff}
use solsight_api.Prelude.{
  ℕ, ◌+◌, String, true, false, none, some, Result, ok, err, ◌≡◌, ◌≢◌, ◌↔◌, refl, sym, ◌∙◌, arith,
  inl, inr, Option-cases, Bool-cases, string_eq,
}
use solsight_api.Billing.Entities.{Database, Store, PaymentOrder, UserCredit, pending}
use solsight_api.Billing.Quota.{paid_credits}
use solsight_api.Billing.Quota.Statements.{paid_credits-save_self, paid_credits-save_ne}
use solsight_api.Billing.Payment.{
  BillingError, duplicate_signature, CompleteOrderResult, already_processed, credited, status_beq,
}
use solsight_api.Billing.Payment.Orders.{
  add_credits, complete_with, taken_elsewhere, complete_pending, complete_order,
}

module _ (db : Database) where
  pub paid_credits-add_credits :
      (u : String) (n now : ℕ) (s : db.credits.State)
      → paid_credits db u (add_credits db u n now s) ≡ paid_credits db u s + n
  unfolding add_credits
  paid_credits-add_credits u n now s = elim (Option-cases (db.credits.find u s)) [
    | inl e ↦
        let row : UserCredit = record { user_id = u; balance = n; updated_at = now } in
        let has : paid_credits db u s ≡ 0 = unfold paid_credits in rw e in
        rw (e, add_credits) (omega (arith, has, paid_credits-save_self db u row s refl))
    | inr (r, e) ↦
        let row = record r { balance = r.balance + n; updated_at = now } in
        let has : paid_credits db u s ≡ r.balance = unfold paid_credits in rw e in
        rw (e, add_credits)
          (omega (arith, has, paid_credits-save_self db u row s (db.credits.find-key u s r e)))
  ]

  pub paid_credits-add_credits_ne :
      (u v : String) (n now : ℕ) (s : db.credits.State)
      → u ≢ v
      → paid_credits db v (add_credits db u n now s) ≡ paid_credits db v s
  unfolding add_credits
  paid_credits-add_credits_ne u v n now s ne = elim (Option-cases (db.credits.find u s)) [
    | inl e ↦
        rw (e, add_credits)
          (paid_credits-save_ne db v (record { user_id = u; balance = n; updated_at = now }) s ne)
    | inr (r, e) ↦
        rw (e, add_credits)
          (paid_credits-save_ne db v (record r { balance = r.balance + n; updated_at = now }) s
            (λ q. ne (sym (db.credits.find-key u s r e) ∙ q)))
  ]

  -- How a call of `completeOrder` ends.
  pub data Completes (id signature : String) (now : ℕ) (s : Store db)
      : Result BillingError CompleteOrderResult × Store db → Type 0 where
    missing :
        db.orders.find id s.orders ≡ none → Completes id signature now s (ok already_processed, s)
    not_pending :
        (o : PaymentOrder)
        → db.orders.find id s.orders ≡ some o
        → status_beq o.status pending ≡ false
        → Completes id signature now s (ok already_processed, s)
    signature_used :
        (o other : PaymentOrder)
        → db.orders.find id s.orders ≡ some o
        → status_beq o.status pending ≡ true
        → other.id ≢ id
        → db.orders.find other.id s.orders ≡ some other
        → other.tx_signature ≡ some signature
        → Completes id signature now s (err duplicate_signature, s)
    pays :
        (o : PaymentOrder) (orders : db.orders.State) (credits : db.credits.State)
        → db.orders.find id s.orders ≡ some o
        → status_beq o.status pending ≡ true
        → ((j : String) (other : PaymentOrder)
            → j ≢ id
            → db.orders.find j s.orders ≡ some other
            → other.tx_signature ≢ some signature)
        → db.orders.find id orders ≡ some (complete_with db signature now o)
        → ((j : String) → j ≢ id → db.orders.find j orders ≡ db.orders.find j s.orders)
        → paid_credits db o.user_id credits ≡ paid_credits db o.user_id s.credits + o.credits
        → ((v : String) → o.user_id ≢ v → paid_credits db v credits ≡ paid_credits db v s.credits)
        → Completes id signature now s
            (ok (credited o.credits), record s { orders = orders; credits = credits })

  taken_elsewhere_iff :
      (signature id : String) (o : PaymentOrder)
      → (taken_elsewhere db signature id o ≡ true)
        ↔ ((o.tx_signature ≡ some signature) × (o.id ≢ id))
  taken_elsewhere_iff signature id o = elim (Option-cases o.tx_signature) [
    | inl e ↦ ground (arith, e)
    | inr (x, e) ↦ ground (arith, e, eq_iff x signature, eq_iff o.id id)
  ]

  complete_pending-Completes :
      (id signature : String) (now : ℕ) (s : Store db) (o : PaymentOrder)
      → db.orders.find id s.orders ≡ some o
      → status_beq o.status pending ≡ true
      → Completes id signature now s (complete_pending db o signature now s)
  unfolding complete_pending
  complete_pending-Completes id signature now s o e open_order =
      let k = db.orders.find-key id s.orders o e in
      elim (Option-cases (db.orders.find_where (taken_elsewhere db signature o.id) s.orders)) [
        | inl free ↦
            rw (free, complete_pending)
              (pays o _ _ e open_order
                (λ j other ne found taken. cc (
                  (taken_elsewhere_iff signature o.id other).1
                      (taken, λ q. ne (sym (db.orders.find-key j s.orders other found) ∙ q ∙ k)),
                  db.orders.find_where_complete _ s.orders j other free found,
                ))
                (db.orders.find-save_self id (complete_with db signature now o) s.orders k)
                (λ j ne.
                  db.orders.find-save_ne j (complete_with db signature now o) s.orders
                    (λ q. ne (sym q ∙ k)))
                (paid_credits-add_credits o.user_id o.credits now s.credits)
                (λ v ne. paid_credits-add_credits_ne o.user_id v o.credits now s.credits ne))
        | inr (other, hit) ↦
            let (taken, found) = db.orders.find_where_sound _ s.orders other hit in
            let (same, apart) = (taken_elsewhere_iff signature o.id other).0 taken in
            rw (hit, complete_pending)
              (signature_used o other e open_order (λ q. apart (q ∙ sym k)) found same)
      ]

  pub complete_order-Completes :
      (id signature : String) (now : ℕ) (s : Store db)
      → Completes id signature now s (complete_order db id signature now s)
  unfolding complete_order
  complete_order-Completes id signature now s = elim (Option-cases (db.orders.find id s.orders)) [
    | inl e ↦ rw (e, complete_order) (missing e)
    | inr (o, e) ↦
        rw (e, complete_order)
          (elim (Bool-cases (status_beq o.status pending)) [
            | inl open_order ↦
                rw open_order (complete_pending-Completes id signature now s o e open_order)
            | inr closed ↦ rw closed (not_pending o e closed)
          ])
  ]

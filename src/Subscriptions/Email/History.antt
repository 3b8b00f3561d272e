-- ===== src/Subscriptions/Email/History.antt =====
-- email-subscription.service.ts: who receives alerts, over any history.
use text.Mathlib.TextEquality.{eq_iff}
use solsight_api.Prelude.{
  ℕ, ◌+◌, String, Bool, true, false, ◌&&◌, none, some, List, [], ◌∷◌, ◌≡◌, refl, arith, ltb, Table,
  EveryRow, EveryRow-save, EveryRow-update_row, EveryRow-update_all, Option-cases, Bool-cases, inl,
  inr, if◌then◌else◌, ◌==◌, string_eq, eq→≡,
}
use solsight_api.Subscriptions.{
  Subscription, subscription_key, is_of, is_pending, disconnected, disconnect, recipient,
}
use solsight_api.Subscriptions.Email.{
  email_token_life_ms, initiated, new_email_subscription, initiate_verification, verified_email,
  verify_token, verify_begin, verify_end,
}

pub data EmailEvent : Type 0 where
  initiates : (id token user_id email : String) (now : ℕ) → EmailEvent
  verifies : (text : String) (now : ℕ) → EmailEvent
  disconnects : (user_id : String) → EmailEvent

-- A token that was sent to the address for the user less than a day before `now`; the latest event is
-- first.
abbrev pub mailed : String → String → String → ℕ → List EmailEvent → Bool
mailed u email text now [] = false
mailed u email text now (initiates id token user_id address t ∷ es) =
    if user_id == u && address == email && token == text && ltb now (t + email_token_life_ms)
    then true
    else mailed u email text now es
mailed u email text now (_ ∷ es) = mailed u email text now es

-- A token that had been sent to the address for the user came back in time.
abbrev pub confirmed : String → String → List EmailEvent → Bool
confirmed u email [] = false
confirmed u email (verifies text now ∷ es) =
    if mailed u email text now es then true else confirmed u email es
confirmed u email (_ ∷ es) = confirmed u email es

module _ (subs : Table subscription_key) where
  unfoldable pub email_step : EmailEvent → subs.State → subs.State
  email_step (initiates id token user_id email now) s =
      (initiate_verification subs id token user_id email now s).1
  email_step (verifies text now) s = (verify_token subs text now s).1
  email_step (disconnects user_id) s = disconnect subs user_id s

  unfoldable pub email_run : List EmailEvent → subs.State → subs.State
  email_run [] s = s
  email_run (e ∷ es) s = email_step e (email_run es s)

  -- What the history says of a row
  pub record Confirmed (es : List EmailEvent) (r : Subscription) : Type 0 where
    pub token_mailed :
        (email text : String) (now : ℕ)
        → r.contact ≡ some email
        → is_pending text now r ≡ true
        → mailed r.user_id email text now es ≡ true
    pub email_confirmed :
        (email : String)
        → r.is_verified ≡ true
        → r.contact ≡ some email
        → confirmed r.user_id email es ≡ true

  abbrev pub IsConfirmed : List EmailEvent → subs.State → Type 0
  IsConfirmed es s = EveryRow subs (Confirmed es) s

  weaken-verifies :
      (text : String) (now : ℕ) (es : List EmailEvent) (r : Subscription)
      → Confirmed es r
      → Confirmed (verifies text now ∷ es) r
  weaken-verifies text now es r a = record {
    token_mailed = a.token_mailed;
    email_confirmed = λ c v e. ground (arith, a.email_confirmed c v e);
  }

  weaken-initiates :
      (id token u email : String) (now : ℕ) (es : List EmailEvent) (r : Subscription)
      → Confirmed es r
      → Confirmed (initiates id token u email now ∷ es) r
  weaken-initiates id token u email now es r a = record {
    token_mailed = λ c t n k e. ground (arith, a.token_mailed c t n k e);
    email_confirmed = a.email_confirmed;
  }

  -- A row with the address and the token that was just made
  initiated-Confirmed :
      (id token u email : String) (now : ℕ) (es : List EmailEvent) (r : Subscription)
      → r.user_id ≡ u
      → Confirmed (initiates id token u email now ∷ es) (initiated subs token email now r)
  initiated-Confirmed id token u email now es r of = record {
    token_mailed =
        λ c t n k e. ground (arith, of, k, e, eq_iff token t, eq_iff email c, eq_iff u r.user_id);
    email_confirmed = λ c v e. cc;
  }

  verified-Confirmed :
      (text : String) (now : ℕ) (es : List EmailEvent) (r : Subscription)
      → Confirmed es r
      → is_pending text now r ≡ true
      → Confirmed (verifies text now ∷ es) (verified_email subs now r)
  verified-Confirmed text now es r a pending = record {
    token_mailed = λ c t n k e. cc;
    email_confirmed = λ c v e. ground (arith, a.token_mailed c text now e pending);
  }

  disconnected-Confirmed :
      (u : String) (es : List EmailEvent) (r : Subscription)
      → Confirmed es r
      → Confirmed (disconnects u ∷ es) (disconnected subs u r)
  disconnected-Confirmed u es r a = elim (Bool-cases (r.user_id == u)) [
    | inl same ↦ rw same (record { token_mailed = λ c t n k e. cc; email_confirmed = λ c v e. cc })
    | inr other ↦
        rw other (record { token_mailed = a.token_mailed; email_confirmed = a.email_confirmed })
  ]

  step-IsConfirmed :
      (e : EmailEvent) (es : List EmailEvent) (s : subs.State)
      → IsConfirmed es s
      → IsConfirmed (e ∷ es) (email_step e s)
  unfolding email_step initiate_verification verify_token verify_begin verify_end disconnect
  step-IsConfirmed (initiates id token u email now) es s before =
      let weak : IsConfirmed (initiates id token u email now ∷ es) s =
        λ k r f. weaken-initiates id token u email now es r (before k r f) in
      elim (Option-cases (subs.find_where (is_of u) s)) [
        | inl e ↦
            rw (e, email_step)
              (EveryRow-save subs (Confirmed _) (new_email_subscription subs id u email token now) s
                weak
                (initiated-Confirmed id token u email now es
                  (new_email_subscription subs id u email token now) refl))
        | inr (existing, e) ↦
            let (of, there) = subs.find_where_sound (is_of u) s existing e in
            rw (e, email_step)
              (EveryRow-save subs (Confirmed _) (initiated subs token email now existing) s weak
                (initiated-Confirmed id token u email now es existing (eq→≡ existing.user_id u of)))
      ]
  step-IsConfirmed (verifies text now) es s before =
      let weak : IsConfirmed (verifies text now ∷ es) s =
        λ k r f. weaken-verifies text now es r (before k r f) in
      elim (Option-cases (subs.find_where (is_pending text now) s)) [
        | inl e ↦ rw (e, email_step) weak
        | inr (found, e) ↦
            let (pending, there) = subs.find_where_sound (is_pending text now) s found e in
            rw (e, email_step)
              (EveryRow-update_row subs (Confirmed _) found.id (verified_email subs now) s weak
                (λ r f.
                  verified-Confirmed text now es r (before found.id r f) (cc (pending, there, f))))
      ]
  step-IsConfirmed (disconnects u) es s before =
      EveryRow-update_all subs (Confirmed es) (Confirmed _) (disconnected subs u) s
        (λ r. ground arith) before (λ r a. disconnected-Confirmed u es r a)

  run-IsConfirmed :
      (es : List EmailEvent) (s : subs.State) → IsConfirmed [] s → IsConfirmed es (email_run es s)
  unfolding email_run
  run-IsConfirmed [] s empty = empty
  run-IsConfirmed (e ∷ es) s empty =
      step-IsConfirmed e es (email_run es s) (run-IsConfirmed es s empty)

  -- From a table without subscriptions, over any history of requests, opened links and disconnections,
  -- each of which is over before the next begins: an alert for a user goes to an address only if a token that was sent to that very
  -- address for that user came back within a day.
  pub recipient-confirmed :
      (es : List EmailEvent) (s : subs.State) (u email : String) (has_key : Bool)
      → ((id : String) → subs.find id s ≡ none)
      → recipient subs has_key u (email_run es s) ≡ some email
      → confirmed u email es ≡ true
  unfolding recipient
  recipient-confirmed es s u email has_key empty sent =
      elim (Option-cases (subs.find_where (λ r. is_of u r && r.is_verified) (email_run es s))) [
        | inl e ↦ ground (arith, e)
        | inr (r, e) ↦
            let (fits, there) = subs.find_where_sound _ (email_run es s) r e in
            let account = run-IsConfirmed es s (λ id q f. ground (arith, empty id)) r.id r there in
            ground (arith, e, eq_iff r.user_id u, account.email_confirmed email)
      ]

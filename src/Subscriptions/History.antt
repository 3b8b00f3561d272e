-- ===== src/Subscriptions/History.antt =====
-- bot.service.ts and zalo-subscription.service.ts: who receives messages, over any history.
use text.Mathlib.TextEquality.{eq_iff}
use solsight_api.Prelude.{
  ℕ, ◌+◌, String, Bool, true, false, ◌&&◌, none, some, List, [], ◌∷◌, ◌≡◌, refl, arith, ltb, Table,
  EveryRow, EveryRow-save, EveryRow-update_row, EveryRow-update_all, Option-cases, Bool-cases, inl,
  inr, if◌then◌else◌, ◌==◌, string_eq, eq→≡,
}
use solsight_api.Subscriptions.{
  Subscription, subscription_key, token_life_ms, is_pending, new_subscription, generate_token,
  find_pending_by_token, verified_row, mark_verified, disconnected, disconnect, recipient, poll,
  is_of,
}

pub data Event : Type 0 where
  generates : (id token user_id : String) (now : ℕ) → Event
  polls : (text chat : String) (now : ℕ) → Event
  disconnects : (user_id : String) → Event

-- A token that was made for the user less than ten minutes before `now`; the latest event is first.
abbrev pub issued : String → String → ℕ → List Event → Bool
issued u text now [] = false
issued u text now (generates id token user_id t ∷ es) =
    if user_id == u && token == text && ltb now (t + token_life_ms)
    then true
    else issued u text now es
issued u text now (_ ∷ es) = issued u text now es

-- The chat account sent the bot a token that had been made for the user.
abbrev pub proven : String → String → List Event → Bool
proven u chat [] = false
proven u chat (polls text c now ∷ es) =
    if c == chat && issued u text now es then true else proven u chat es
proven u chat (_ ∷ es) = proven u chat es

module _ (subs : Table subscription_key) where
  unfoldable pub step : Event → subs.State → subs.State
  step (generates id token user_id now) s = (generate_token subs id token user_id now s).1
  step (polls text chat now) s = poll subs text chat now s
  step (disconnects user_id) s = disconnect subs user_id s

  unfoldable pub run : List Event → subs.State → subs.State
  run [] s = s
  run (e ∷ es) s = step e (run es s)

  -- What the history says of a row
  pub record Accounted (es : List Event) (r : Subscription) : Type 0 where
    pub token_issued :
        (text : String) (now : ℕ)
        → is_pending text now r ≡ true
        → issued r.user_id text now es ≡ true
    pub contact_proven :
        (chat : String)
        → r.is_verified ≡ true
        → r.contact ≡ some chat
        → proven r.user_id chat es ≡ true

  abbrev pub IsAccounted : List Event → subs.State → Type 0
  IsAccounted es s = EveryRow subs (Accounted es) s

  weaken-polls :
      (text chat : String) (now : ℕ) (es : List Event) (r : Subscription)
      → Accounted es r
      → Accounted (polls text chat now ∷ es) r
  weaken-polls text chat now es r a = record {
    token_issued = a.token_issued;
    contact_proven = λ c v e. ground (arith, a.contact_proven c v e);
  }

  weaken-generates :
      (id token u : String) (now : ℕ) (es : List Event) (r : Subscription)
      → Accounted es r
      → Accounted (generates id token u now ∷ es) r
  weaken-generates id token u now es r a = record {
    token_issued = λ t n e. ground (arith, a.token_issued t n e);
    contact_proven = a.contact_proven;
  }

  -- A row with the token that was just made
  fresh-Accounted :
      (id token u : String) (now : ℕ) (es : List Event) (r : Subscription)
      → r.user_id ≡ u
      → r.verification_token ≡ some token
      → r.token_expires_at ≡ some (now + token_life_ms)
      → r.is_verified ≡ false
      → Accounted (generates id token u now ∷ es) r
  fresh-Accounted id token u now es r of tok life unverified = record {
    token_issued = λ t n e. ground (arith, of, tok, life, e, eq_iff token t, eq_iff u r.user_id);
    contact_proven = λ c v e. cc;
  }

  poll-Accounted :
      (text chat : String) (now : ℕ) (es : List Event) (r : Subscription)
      → Accounted es r
      → is_pending text now r ≡ true
      → Accounted (polls text chat now ∷ es) (verified_row subs chat now r)
  poll-Accounted text chat now es r a pending = record {
    token_issued = λ t n e. cc;
    contact_proven = λ c v e. ground (arith, a.token_issued text now pending, eq_iff chat c, e);
  }

  disconnect-Accounted :
      (u : String) (es : List Event) (r : Subscription)
      → Accounted es r
      → Accounted (disconnects u ∷ es) (disconnected subs u r)
  disconnect-Accounted u es r a = elim (Bool-cases (r.user_id == u)) [
    | inl same ↦ rw same (record { token_issued = λ t n e. cc; contact_proven = λ c v e. cc })
    | inr other ↦
        rw other (record { token_issued = a.token_issued; contact_proven = a.contact_proven })
  ]

  step-IsAccounted :
      (e : Event) (es : List Event) (s : subs.State)
      → IsAccounted es s
      → IsAccounted (e ∷ es) (step e s)
  unfolding step generate_token find_pending_by_token poll mark_verified disconnect
  step-IsAccounted (generates id token u now) es s before =
      let weak : IsAccounted (generates id token u now ∷ es) s =
        λ k r f. weaken-generates id token u now es r (before k r f) in
      elim (Option-cases (subs.find_where (is_of u) s)) [
        | inl e ↦
            rw (e, step)
              (EveryRow-save subs (Accounted _) (new_subscription id u token now) s weak
                (fresh-Accounted id token u now es _ refl refl refl refl))
        | inr (existing, e) ↦
            let (of, there) = subs.find_where_sound (is_of u) s existing e in
            rw (e, step)
              (EveryRow-save subs (Accounted _) _ s weak
                (fresh-Accounted id token u now es _ (eq→≡ existing.user_id u of) refl refl refl))
      ]
  step-IsAccounted (polls text chat now) es s before =
      let weak : IsAccounted (polls text chat now ∷ es) s =
        λ k r f. weaken-polls text chat now es r (before k r f) in
      elim (Option-cases (subs.find_where (is_pending text now) s)) [
        | inl e ↦ rw (e, step) weak
        | inr (found, e) ↦
            let (pending, there) = subs.find_where_sound (is_pending text now) s found e in
            rw (e, step)
              (EveryRow-update_row subs (Accounted _) found.id (verified_row subs chat now) s weak
                (λ r f.
                  poll-Accounted text chat now es r (before found.id r f) (cc (pending, there, f))))
      ]
  step-IsAccounted (disconnects u) es s before =
      EveryRow-update_all subs (Accounted es) (Accounted _) (disconnected subs u) s
        (λ r. ground arith) before (λ r a. disconnect-Accounted u es r a)

  run-IsAccounted :
      (es : List Event) (s : subs.State) → IsAccounted [] s → IsAccounted es (run es s)
  unfolding run
  run-IsAccounted [] s empty = empty
  run-IsAccounted (e ∷ es) s empty = step-IsAccounted e es (run es s) (run-IsAccounted es s empty)

  -- From a table without subscriptions, over any history of tokens, updates of the bot and
  -- disconnections: a message for a user goes to a chat account only if that account sent the bot a
  -- token that had been made for that user less than ten minutes before.
  pub recipient-proven :
      (es : List Event) (s : subs.State) (u chat : String) (has_token : Bool)
      → ((id : String) → subs.find id s ≡ none)
      → recipient subs has_token u (run es s) ≡ some chat
      → proven u chat es ≡ true
  unfolding recipient
  recipient-proven es s u chat has_token empty sent =
      elim (Option-cases (subs.find_where (λ r. is_of u r && r.is_verified) (run es s))) [
        | inl e ↦ ground (arith, e)
        | inr (r, e) ↦
            let (fits, there) = subs.find_where_sound _ (run es s) r e in
            let account = run-IsAccounted es s (λ id q f. ground (arith, empty id)) r.id r there in
            ground (arith, e, eq_iff r.user_id u, account.contact_proven chat)
      ]

-- ===== src/Auth/Mailed.antt =====
-- auth.service.ts: a registration that is pending was mailed.
use solsight_api.Prelude.{
  ℕ, ◌+◌, String, true, false, Option, none, some, List, [], ◌∷◌, ◌≡◌, ◌≢◌, ◌⊎◌, ◌<◌, inl, inr,
  refl, sym, ap, arith, ltb, Table, string_eq, ◌==◌, eq→≡, ≡→eq, Bool-cases, if◌then◌else◌, ◌∙◌,
}
use solsight_api.Prelude.Text.{is_blank}
use solsight_api.Auth.{
  user_key, PendingRegistration, PendingStore, pending_ttl_ms, Crypto, Mail, verification,
}
use solsight_api.Auth.Registration.{
  AuthState, send_mail, when_present, save_pending_registration, delete_pending_registration,
}

some_inj : {A : Type 0} {a b : A} → ◌≡◌ {A = Option A} (some a) (some b) → a ≡ b
some_inj e = cc

module _ (c : Crypto) (users : Table user_key) (store : PendingStore) where
  abbrev pub State : Type 0
  State = AuthState c users store

  -- Less than a day before `now` the token was mailed to an address that is `key` in lower case.
  abbrev pub IsMail : String → String → ℕ → ℕ × Mail → Type 0
  IsMail token key now (t, m) =
      (address : String) × (m ≡ verification address token)
      × (c.lower address ≡ key)
      × (now < t + pending_ttl_ms)

  abbrev pub WasMailed : String → String → ℕ → List (ℕ × Mail) → Type 0
  WasMailed token key now [] = ⊥
  WasMailed token key now (m ∷ ms) = IsMail token key now m ⊎ WasMailed token key now ms

  pub record IsMailed (s : State) : Type 0 where
    pub mailed :
        (now : ℕ) (k : String) (d : PendingRegistration)
        → store.by_token now k s.pending ≡ some d
        → WasMailed k (c.lower d.email) now s.sent
    pub indexed :
        (now n : ℕ) (k token : String) (d : PendingRegistration)
        → store.by_email now k s.pending ≡ some token
        → store.by_token n token s.pending ≡ some d
        → c.lower d.email ≡ k

  -- The token is not one that an address has already.
  abbrev pub IsFresh : String → State → Type 0
  IsFresh token s = (now : ℕ) (k : String) → store.by_email now k s.pending ≢ some token

  -- `savePendingRegistration` up to the writes
  abbrev drop_old : String → String → store.State → store.State
  drop_old token old p = if old == token then p else store.del_by_token old p

  abbrev cleared : Option String → String → store.State → store.State
  cleared old token p = when_present c users store old (drop_old token) p

  removed_token :
      (old k : String) (n : ℕ) (p : store.State) (d : PendingRegistration)
      → store.by_token n k (store.del_by_token old p) ≡ some d
      → store.by_token n k p ≡ some d
  removed_token old k n p d found = elim (Bool-cases (old == k)) [
    | inl gone ↦ cc (rw (store.by_token-del n old k p, gone) at found)
    | inr kept ↦ rw (store.by_token-del n old k p, kept) at found
  ]

  removed :
      (old token k : String) (n : ℕ) (p : store.State) (d : PendingRegistration)
      → store.by_token n k (drop_old token old p) ≡ some d
      → store.by_token n k p ≡ some d
  removed old token k n p d found = elim (Bool-cases (old == token)) [
    | inl same ↦ rw same at found
    | inr other ↦ removed_token old k n p d (rw other at found)
  ]

  removed_email :
      (n : ℕ) (key k old token : String) (p : store.State)
      → store.by_email n k (store.del_by_email key (store.del_by_token old p)) ≡ some token
      → store.by_email n k p ≡ some token
  removed_email n key k old token p found = elim (Bool-cases (key == k)) [
    | inl gone ↦ cc (rw (store.by_email-del n key k (store.del_by_token old p), gone) at found)
    | inr kept ↦
        rw
          (
            store.by_email-del n key k (store.del_by_token old p),
            kept,
            store.by_email-del_by_token n old k p,
          )
          at found
  ]

  cleared_by_token :
      (old : Option String) (token k : String) (n : ℕ) (p : store.State) (d : PendingRegistration)
      → store.by_token n k (cleared old token p) ≡ some d
      → store.by_token n k p ≡ some d
  cleared_by_token none token k n p d found = found
  cleared_by_token (some x) token k n p d found = elim (Bool-cases (is_blank x)) [
    | inl blank ↦ rw blank at found
    | inr full ↦ removed x token k n p d (rw full at found)
  ]

  cleared_by_email :
      (old : Option String) (token k : String) (n : ℕ) (p : store.State)
      → store.by_email n k (cleared old token p) ≡ store.by_email n k p
  cleared_by_email none token k n p = refl
  cleared_by_email (some x) token k n p = elim (Bool-cases (is_blank x)) [
    | inl blank ↦ rw blank
    | inr full ↦ rw full (elim (Bool-cases (x == token)) [
      | inl same ↦ rw same
      | inr other ↦ rw other (store.by_email-del_by_token n x k p)
    ])
  ]

  -- What is found after a registration was saved
  saved_by_token :
      (now n : ℕ) (new d : PendingRegistration) (k : String) (s : State)
      → store.by_token n k (save_pending_registration c users store now new s).pending ≡ some d
      → ((new.token ≡ k) × (n < now + pending_ttl_ms) × (new ≡ d))
        ⊎ (((new.token == k) ≡ false) × (store.by_token n k s.pending ≡ some d))
  unfolding save_pending_registration
  saved_by_token now n new d k s found =
      let key = c.lower new.email in
      let old = store.by_email now key s.pending in
      let p = cleared old new.token s.pending in
      let e =
        rw
          (
            store.by_token-set_by_email now n key k new.token
                (store.set_by_token now new.token new p),
            store.by_token-set now n new.token k new p,
          )
          at found in
      elim (Bool-cases (new.token == k)) [
        | inr other ↦ inr (other, cleared_by_token old new.token k n s.pending d (rw other at e))
        | inl same ↦ elim (Bool-cases (ltb n (now + pending_ttl_ms))) [
          | inl alive ↦ inl (eq→≡ new.token k same, ground arith, some_inj (rw (same, alive) at e))
          | inr dead ↦ cc (rw (same, dead) at e)
        ]
      ]

  saved_by_email :
      (now n : ℕ) (new : PendingRegistration) (k token : String) (s : State)
      → store.by_email n k (save_pending_registration c users store now new s).pending ≡ some token
      → ((c.lower new.email ≡ k) × (new.token ≡ token))
        ⊎ (store.by_email n k s.pending ≡ some token)
  unfolding save_pending_registration
  saved_by_email now n new k token s found =
      let key = c.lower new.email in
      let old = store.by_email now key s.pending in
      let p = cleared old new.token s.pending in
      let e =
        rw (store.by_email-set now n key k new.token (store.set_by_token now new.token new p)) at
          found in
      elim (Bool-cases (key == k)) [
        | inr other ↦ inr (
            sym (
              store.by_email-set_by_token now n new.token k new p
              ∙ cleared_by_email old new.token k n s.pending)
            ∙ rw other at e)
        | inl same ↦ elim (Bool-cases (ltb n (now + pending_ttl_ms))) [
          | inl alive ↦ inl (eq→≡ key k same, some_inj (rw (same, alive) at e))
          | inr dead ↦ cc (rw (same, dead) at e)
        ]
      ]

  -- A registration that is saved under a fresh token and mailed
  pub saved-IsMailed :
      (now : ℕ) (new : PendingRegistration) (address : String) (s : State)
      → IsMailed s
      → IsFresh new.token s
      → c.lower address ≡ c.lower new.email
      → IsMailed (
          send_mail c users store true now
            (verification address new.token)
            (save_pending_registration c users store now new s))
  unfolding save_pending_registration
  saved-IsMailed now new address s h fresh same = record {
    mailed = λ n k d found. elim (saved_by_token now n new d k s found) [
      | inl (own, alive, e) ↦ inl (
        address,
        ap (verification address) own,
        same ∙ ap (λ (r : PendingRegistration). c.lower r.email) e,
        alive,
      )
      | inr (_, before) ↦ inr (h.mailed n k d before)
    ];
    indexed = λ n n' k token d found found'. elim (saved_by_email now n new k token s found) [
      | inl (key, own) ↦ elim (saved_by_token now n' new d token s found') [
        | inl (_, _, e) ↦ sym (ap (λ (r : PendingRegistration). c.lower r.email) e) ∙ key
        | inr (other, _) ↦ cc (≡→eq new.token token own, other)
      ]
      | inr early ↦ elim (saved_by_token now n' new d token s found') [
        | inl (own, _, _) ↦ absurd (fresh n k (early ∙ ap some (sym own)))
        | inr (_, before) ↦ h.indexed n n' k token d early before
      ]
    ];
  }

  -- A registration is taken out.
  pub deleted-IsMailed :
      (d : PendingRegistration) (s : State)
      → IsMailed s
      → IsMailed (delete_pending_registration c users store d s)
  unfolding delete_pending_registration
  deleted-IsMailed d s h =
      let token_before =
        λ (n : ℕ) (k : String) (e : PendingRegistration)
            (found : store.by_token n k
                (store.del_by_email (c.lower d.email) (store.del_by_token d.token s.pending))
              ≡ some e).
          removed_token d.token k n s.pending e (
            sym (
              store.by_token-del_by_email n (c.lower d.email) k
                (store.del_by_token d.token s.pending))
            ∙ found) in
      record {
        mailed = λ n k e found. h.mailed n k e (token_before n k e found);
        indexed = λ n n' k token e found found'.
            h.indexed n n' k token e
              (removed_email n (c.lower d.email) k d.token token s.pending found)
              (token_before n' token e found');
      }

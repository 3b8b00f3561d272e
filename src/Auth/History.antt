-- ===== src/Auth/History.antt =====
-- auth.service.ts: over any history of calls, an account is opened by a token that was mailed.
use solsight_api.Prelude.{
  ℕ, String, Bool, true, false, Option, none, some, List, [], ◌∷◌, ◌≡◌, inl, inr, refl, sym, ap,
  Table, string_eq, Bool-cases, Option-cases, ◌∙◌, Result-cases,
}
use solsight_api.Prelude.Text.{is_blank}
use solsight_api.Auth.{
  User, user_key, PendingRegistration, PendingStore, Crypto, Mail, RegisterDto, Credentials,
  GoogleTokenProfile, exists_by_email, find_by_email, merge_user, has_token, login,
  handle_oauth_login,
}
use solsight_api.Auth.Registration.{
  find_pending_by_token, find_pending_by_email, delete_pending_registration, register,
  verify_pending, verify_row, verify_email, resend_verification_email, forgot_password,
  reset_password, validate_password_reset_otp, is_past, user_of, mark_verified,
}
use solsight_api.Auth.Mailed.{State, WasMailed, IsMailed, IsFresh, saved-IsMailed, deleted-IsMailed}

module _ (c : Crypto) (users : Table user_key) (store : PendingStore) where
  -- The calls of the service that change state. The sender has a key, so what is sent is sent.
  pub data AuthCall : Type 0 where
    logins : ℕ → Credentials → AuthCall
    oauths :
        ℕ
        → (id salt secret : String) → (creates : Bool) → (provider : String)
        → Option GoogleTokenProfile
        → AuthCall
    registers : (connected : Bool) → ℕ → (token salt : String) → RegisterDto → AuthCall
    verifies : (connected : Bool) → ℕ → (id token : String) → AuthCall
    resends : (connected : Bool) → ℕ → (token email : String) → AuthCall
    forgets : ℕ → (otp salt email : String) → AuthCall
    resets : ℕ → (salt email otp password : String) → AuthCall

  unfoldable pub step : AuthCall → State c users store → State c users store
  step (logins now dto) s = record s { rows = (login c users now dto s.rows).1 }
  step (oauths now id salt secret creates provider profile) s = record s {
    rows = (handle_oauth_login c users now id salt secret creates provider profile s.rows).1;
  }
  step (registers connected now token salt dto) s =
      (register c users store connected true now token salt dto s).1
  step (verifies connected now id token) s = (verify_email c users store connected now id token s).1
  step (resends connected now token email) s =
      (resend_verification_email c users store connected true now token email s).1
  step (forgets now otp salt email) s = (forgot_password c users store true now otp salt email s).1
  step (resets now salt email otp password) s =
      (reset_password c users store now salt email otp password s).1

  abbrev pub steps : List AuthCall → State c users store → State c users store
  steps [] s = s
  steps (k ∷ ks) s = steps ks (step k s)

  -- The random tokens of a call are new.
  abbrev pub IsNew : AuthCall → State c users store → Type 0
  IsNew (registers connected now token salt dto) s = IsFresh c users store token s
  IsNew (resends connected now token email) s = IsFresh c users store token s
  IsNew _ s = Unit

  abbrev pub AreNew : List AuthCall → State c users store → Type 0
  AreNew [] s = Unit
  AreNew (k ∷ ks) s = IsNew k s × AreNew ks (step k s)

  abbrev Mailed : State c users store → Type 0
  Mailed s = IsMailed c users store s

  -- The rows do not matter, and one more mail does no harm.
  rows_lem : (s : State c users store) (r : users.State) → Mailed s → Mailed (record s { rows = r })
  rows_lem s r h = record { mailed = h.mailed; indexed = h.indexed }

  mail_lem :
      (s : State c users store) (m : ℕ × Mail) (r : users.State)
      → Mailed s
      → Mailed (record s { rows = r; sent = m ∷ s.sent })
  mail_lem s m r h = record {
    mailed = λ n k d found. inr (h.mailed n k d found);
    indexed = h.indexed;
  }

  register-Mailed :
      (connected : Bool) (now : ℕ) (token salt : String) (dto : RegisterDto)
      (s : State c users store)
      → IsFresh c users store token s
      → Mailed s
      → Mailed (register c users store connected true now token salt dto s).1
  unfolding register
  register-Mailed connected now token salt dto s fresh h =
      elim (Bool-cases (exists_by_email c users dto.email s.rows)) [
        | inl there ↦ rw there h
        | inr free ↦ elim (Bool-cases connected) [
          | inr off ↦ rw (free, off) h
          | inl on ↦ rw (free, on) (saved-IsMailed c users store now _ dto.email s h fresh refl)
        ]
      ]

  verify_email-Mailed :
      (connected : Bool) (now : ℕ) (id token : String) (s : State c users store)
      → Mailed s
      → Mailed (verify_email c users store connected now id token s).1
  unfolding verify_email verify_pending verify_row
  verify_email-Mailed connected now id token s h =
      elim (Option-cases (find_pending_by_token c users store connected now token s)) [
        | inr (d, e) ↦
            rw (e, verify_email)
              (elim (Bool-cases (exists_by_email c users d.email s.rows)) [
                | inl there ↦ rw there (deleted-IsMailed c users store d s h)
                | inr free ↦ rw free (
                    deleted-IsMailed c users store d
                      (record s { rows = users.save (user_of c users store id d) s.rows })
                      (rows_lem s _ h))
              ])
        | inl e ↦
            rw (e, verify_email)
              (elim (Option-cases (users.find_where (has_token token) s.rows)) [
                | inl e' ↦ rw (e', verify_row) h
                | inr (u, e') ↦
                    rw (e', verify_row)
                      (elim (Bool-cases
                        (is_past c users store now u.email_verification_token_expires)) [
                          | inl past ↦ rw past h
                          | inr fine ↦ rw fine (rows_lem s _ h)
                        ])
              ])
      ]

  found_by_email :
      (connected : Bool) (now : ℕ) (email : String) (d : PendingRegistration)
      (s : State c users store)
      → Mailed s
      → find_pending_by_email c users store connected now email s ≡ some d
      → c.lower email ≡ c.lower d.email
  unfolding find_pending_by_email find_pending_by_token
  found_by_email false now email d s h found = cc
  found_by_email true now email d s h found =
      elim (Option-cases (store.by_email now (c.lower email) s.pending)) [
        | inl e ↦ cc (rw (e, find_pending_by_email) at found)
        | inr (token, e) ↦ elim (Bool-cases (is_blank token)) [
          | inl blank ↦ cc (rw (e, find_pending_by_email, blank) at found)
          | inr full ↦ sym (
              h.indexed now now (c.lower email) token d e
                (rw full at (rw (e, find_pending_by_email) at found)))
        ]
      ]

  resend-Mailed :
      (connected : Bool) (now : ℕ) (token email : String) (s : State c users store)
      → IsFresh c users store token s
      → Mailed s
      → Mailed (resend_verification_email c users store connected true now token email s).1
  unfolding resend_verification_email
  resend-Mailed connected now token email s fresh h =
      elim (Option-cases (find_pending_by_email c users store connected now email s)) [
        | inr (d, e) ↦
            rw (e, resend_verification_email)
              (saved-IsMailed c users store now (record d { token = token }) email s h fresh
                (found_by_email connected now email d s h e))
        | inl e ↦
            rw (e, resend_verification_email)
              (elim (Option-cases (find_by_email c users email s.rows)) [
                | inl e' ↦ rw (e', resend_verification_email) h
                | inr (u, e') ↦
                    rw (e', resend_verification_email)
                      (elim (Bool-cases u.is_email_verified) [
                        | inl done ↦ rw done h
                        | inr open_still ↦ rw open_still (mail_lem s _ _ h)
                      ])
              ])
      ]

  forgot-Mailed :
      (now : ℕ) (otp salt email : String) (s : State c users store)
      → Mailed s
      → Mailed (forgot_password c users store true now otp salt email s).1
  unfolding forgot_password
  forgot-Mailed now otp salt email s h = elim (Option-cases (find_by_email c users email s.rows)) [
    | inl e ↦ rw (e, forgot_password) h
    | inr (u, e) ↦
        rw (e, forgot_password)
          (elim (Bool-cases u.is_active) [
            | inl active ↦ rw active (mail_lem s _ _ h)
            | inr banned ↦ rw banned h
          ])
  ]

  reset-Mailed :
      (now : ℕ) (salt email otp password : String) (s : State c users store)
      → Mailed s
      → Mailed (reset_password c users store now salt email otp password s).1
  unfolding reset_password
  reset-Mailed now salt email otp password s h =
      elim (Result-cases (validate_password_reset_otp c users store now email otp s)) [
        | inl (u, e) ↦ rw (e, reset_password) (rows_lem s _ h)
        | inr (f, e) ↦ rw (e, reset_password) h
      ]

  step-Mailed : (k : AuthCall) (s : State c users store) → IsNew k s → Mailed s → Mailed (step k s)
  unfolding step
  step-Mailed (logins now dto) s new h = rows_lem s _ h
  step-Mailed (oauths now id salt secret creates provider profile) s new h = rows_lem s _ h
  step-Mailed (registers connected now token salt dto) s new h =
      register-Mailed connected now token salt dto s new h
  step-Mailed (verifies connected now id token) s new h =
      verify_email-Mailed connected now id token s h
  step-Mailed (resends connected now token email) s new h =
      resend-Mailed connected now token email s new h
  step-Mailed (forgets now otp salt email) s new h = forgot-Mailed now otp salt email s h
  step-Mailed (resets now salt email otp password) s new h =
      reset-Mailed now salt email otp password s h

  steps-Mailed :
      (ks : List AuthCall) (s : State c users store) → AreNew ks s → Mailed s → Mailed (steps ks s)
  steps-Mailed [] s new h = h
  steps-Mailed (k ∷ ks) s (new, later) h = steps-Mailed ks (step k s) later (step-Mailed k s new h)

  -- Nothing is pending and nothing has been mailed.
  pub record IsStart (s : State c users store) : Type 0 where
    pub no_token : (now : ℕ) (k : String) → store.by_token now k s.pending ≡ none
    pub no_email : (now : ℕ) (k : String) → store.by_email now k s.pending ≡ none
    pub no_mail : s.sent ≡ []

  start-Mailed : (s : State c users store) → IsStart s → Mailed s
  start-Mailed s start = record {
    mailed = λ now k d found. cc (start.no_token now k, found);
    indexed = λ now n k token d found later. cc (start.no_email now k, found);
  }

  -- A link that verifies a row opens no account.
  verify_row-none :
      (now : ℕ) (id token : String) (s : State c users store)
      → users.find id s.rows ≡ none
      → users.find id (verify_row c users store now token s).1.rows ≡ none
  unfolding verify_row merge_user
  verify_row-none now id token s absent =
      elim (Option-cases (users.find_where (has_token token) s.rows)) [
        | inl e ↦ rw (e, verify_row) absent
        | inr (u, e) ↦
            rw (e, verify_row)
              (elim (Bool-cases (is_past c users store now u.email_verification_token_expires)) [
                | inl past ↦ rw past absent
                | inr fine ↦
                    let there = (users.find_where_sound (has_token token) s.rows u e).1 in
                    rw fine (
                      rw (there, merge_user)
                        (users.find-save_ne id (mark_verified c users store u) s.rows
                            (λ q. cc (rw (q, absent) at there))
                          ∙ absent))
              ])
      ]

  some_inj : {A : Type 0} {a b : A} → ◌≡◌ {A = Option A} (some a) (some b) → a ≡ b
  some_inj e = cc

  -- What verifyEmail finds in Redis
  found_pending :
      (connected : Bool) (now : ℕ) (token : String) (d : PendingRegistration)
      (s : State c users store)
      → find_pending_by_token c users store connected now token s ≡ some d
      → store.by_token now token s.pending ≡ some d
  unfolding find_pending_by_token
  found_pending false now token d s found = cc
  found_pending true now token d s found = found

  -- The account that a call of verifyEmail opens
  abbrev pub WasInvited : String → ℕ → User → List (ℕ × Mail) → Type 0
  WasInvited token now u sent =
      (email : String) × (u.email ≡ some email)
      × WasMailed c users store token (c.lower email) now sent

  opened_lem :
      (connected : Bool) (now : ℕ) (id token : String) (s : State c users store) (u : User)
      → Mailed s
      → users.find id s.rows ≡ none
      → users.find id (verify_email c users store connected now id token s).1.rows ≡ some u
      → WasInvited token now u s.sent
  unfolding verify_email verify_pending delete_pending_registration
  opened_lem connected now id token s u h absent found =
      elim (Option-cases (find_pending_by_token c users store connected now token s)) [
        | inl e ↦ cc (rw (e, verify_email) at found, verify_row-none now id token s absent)
        | inr (d, e) ↦ elim (Bool-cases (exists_by_email c users d.email s.rows)) [
          | inl there ↦ cc (rw (e, verify_email, there) at found, absent)
          | inr free ↦
              let row =
                rw (free, users.find-save_self id (user_of c users store id d) s.rows refl) at
                  (rw (e, verify_email) at found) in
              (
                d.email,
                ap (λ (r : User). r.email) (sym (some_inj row)),
                h.mailed now token d (found_pending connected now token d s e),
              )
        ]
      ]

  -- From a start where nothing is pending, over any history of calls whose random tokens are new: an
  -- account that verifyEmail opens has an address for which the very token came by mail less than a
  -- day before, to that address up to the case of its letters.
  pub verify_email-invited :
      (ks : List AuthCall) (s : State c users store) (connected : Bool) (now : ℕ)
      (id token : String) (u : User)
      → IsStart s
      → AreNew ks s
      → users.find id (steps ks s).rows ≡ none
      → users.find id (verify_email c users store connected now id token (steps ks s)).1.rows
        ≡ some u
      → WasInvited token now u (steps ks s).sent
  verify_email-invited ks s connected now id token u start new absent found =
      opened_lem connected now id token (steps ks s) u
        (steps-Mailed ks s new (start-Mailed s start)) absent found

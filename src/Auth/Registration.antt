-- ===== src/Auth/Registration.antt =====
-- auth.service.ts: registration and the tokens that verify an address, and the codes that reset a
-- password. `connected` is whether there is a Redis client; Redis answers. `mails` is whether the
-- sender has a key; that a mail fails is logged only.
use solsight_api.Prelude.{
  ℕ, ◌+◌, String, Bool, true, false, not, Option, none, some, List, ◌∷◌, ltb, if◌then◌else◌, Result,
  ok, err, ◌>>=◌, Table, string_eq, ◌==◌,
}
use solsight_api.Prelude.Text.{is_blank}
use solsight_api.Auth.Texts.{first_part}
use solsight_api.Auth.{
  User, user_key, PendingRegistration, PendingStore, Crypto, Mail, verification, reset_code,
  AuthFailure, email_exists, unavailable, invalid_token, token_expired, user_not_found,
  already_verified, invalid_otp, otp_expired, AuthMessage, registered, email_verified,
  reset_code_sent, otp_verified, password_reset, verification_sent, RegisterDto, new_user,
  has_token, text_or, find_by_email, exists_by_email, merge_user,
}

module _ (c : Crypto) (users : Table user_key) (store : PendingStore) where
  -- The table of users, the registrations in Redis, and the mails that have been sent
  pub record AuthState : Type 0 where
    pub rows : users.State
    pub pending : store.State
    pub sent : List (ℕ × Mail)

  abbrev pub Reply : Type 0
  Reply = Result AuthFailure AuthMessage × AuthState

  -- `sendVerificationEmail`, and the mail of `forgotPassword`
  abbrev pub send_mail : Bool → ℕ → Mail → AuthState → AuthState
  send_mail true now mail s = record s { sent = (now, mail) ∷ s.sent }
  send_mail false now mail s = s

  abbrev pub when_present :
      Option String → (String → store.State → store.State) → store.State → store.State
  when_present none f s = s
  when_present (some x) f s = if is_blank x then s else f x s

  -- `savePendingRegistration`, with a client
  unfoldable pub save_pending_registration : ℕ → PendingRegistration → AuthState → AuthState
  save_pending_registration now d s =
      let key = c.lower d.email in
      let cleared =
        when_present (store.by_email now key s.pending)
          (λ old p. if old == d.token then p else store.del_by_token old p) s.pending in
      record s {
        pending = store.set_by_email now key d.token (store.set_by_token now d.token d cleared);
      }

  unfoldable pub find_pending_by_token : Bool → ℕ → String → AuthState → Option PendingRegistration
  find_pending_by_token connected now token s =
      if connected then store.by_token now token s.pending else none

  unfoldable pub find_pending_by_email : Bool → ℕ → String → AuthState → Option PendingRegistration
  unfolding find_pending_by_token
  find_pending_by_email connected now email s =
      if connected
      then elim (store.by_email now (c.lower email) s.pending) [
        | none ↦ none
        | some token ↦ if is_blank token then none else find_pending_by_token connected now token s
      ]
      else none

  unfoldable pub delete_pending_registration : PendingRegistration → AuthState → AuthState
  delete_pending_registration d s = record s {
    pending = store.del_by_email (c.lower d.email) (store.del_by_token d.token s.pending);
  }

  -- `register`; `token` and `salt` are fresh random texts.
  unfoldable pub register :
      (connected mails : Bool) → ℕ → (token salt : String) → RegisterDto → AuthState → Reply
  unfolding exists_by_email save_pending_registration
  register connected mails now token salt dto s =
      if exists_by_email c users dto.email s.rows
      then (err email_exists, s)
      else if not connected
      then (err unavailable, s)
      else (
        ok registered,
        send_mail mails now (verification dto.email token) (
            save_pending_registration now
              (record {
                email = dto.email;
                password = c.hash salt dto.password;
                username = text_or dto.username (first_part b'@' dto.email);
                first_name = dto.first_name;
                last_name = dto.last_name;
                token = token;
              })
              s),
      )

  -- The account that a registration opens
  abbrev pub user_of : String → PendingRegistration → User
  user_of id d = record (new_user id d.email d.username d.password) {
    first_name = d.first_name;
    last_name = d.last_name;
    is_email_verified = true;
  }

  abbrev pub mark_verified : User → User
  mark_verified u = record u {
    is_email_verified = true;
    email_verification_token = none;
    email_verification_token_expires = none;
  }

  -- `!expires || expires < now`
  abbrev pub is_past : ℕ → Option ℕ → Bool
  is_past now none = true
  is_past now (some t) = ltb t now

  unfoldable pub verify_pending : String → PendingRegistration → AuthState → Reply
  unfolding exists_by_email delete_pending_registration
  verify_pending id d s =
      if exists_by_email c users d.email s.rows
      then (err email_exists, delete_pending_registration d s)
      else (
        ok email_verified,
        delete_pending_registration d (record s { rows = users.save (user_of id d) s.rows }),
      )

  unfoldable pub verify_row : ℕ → String → AuthState → Reply
  unfolding merge_user
  verify_row now token s = elim (users.find_where (has_token token) s.rows) [
    | none ↦ (err invalid_token, s)
    | some u ↦
        if is_past now u.email_verification_token_expires
        then (err token_expired, s)
        else (ok email_verified, record s { rows = merge_user c users u.id mark_verified s.rows })
  ]

  unfoldable pub verify_email : Bool → ℕ → (id token : String) → AuthState → Reply
  unfolding find_pending_by_token verify_pending verify_row
  verify_email connected now id token s = elim (find_pending_by_token connected now token s) [
    | some d ↦ verify_pending id d s
    | none ↦ verify_row now token s
  ]

  abbrev pub resend_to : ℕ → String → User → AuthState → AuthState
  resend_to now token u s = record s {
    rows =
        merge_user c users u.id
          (λ r. record r {
            email_verification_token = some token;
            email_verification_token_expires = some (now + 86400000);
          })
          s.rows;
  }

  unfoldable pub resend_verification_email :
      (connected mails : Bool) → ℕ → (token email : String) → AuthState → Reply
  unfolding find_pending_by_email save_pending_registration find_by_email merge_user
  resend_verification_email connected mails now token email s =
      elim (find_pending_by_email connected now email s) [
        | some d ↦ (
          ok verification_sent,
          send_mail mails now (verification email token)
              (save_pending_registration now (record d { token = token }) s),
        )
        | none ↦ elim (find_by_email c users email s.rows) [
          | none ↦ (err user_not_found, s)
          | some u ↦ if u.is_email_verified then (err already_verified, s) else (
            ok verification_sent,
            send_mail mails now (verification email token) (resend_to now token u s),
          )
        ]
      ]

  -- `forgotPassword`
  unfoldable pub forgot_password : Bool → ℕ → (otp salt email : String) → AuthState → Reply
  unfolding find_by_email merge_user
  forgot_password mails now otp salt email s = elim (find_by_email c users email s.rows) [
    | none ↦ (ok reset_code_sent, s)
    | some u ↦
        if u.is_active
        then (
          ok reset_code_sent,
          send_mail mails now (reset_code email otp) (record s {
            rows =
                merge_user c users u.id
                  (λ r. record r {
                    password_reset_token = some (c.hash salt otp);
                    password_reset_expires = some (now + 600000);
                  })
                  s.rows;
          }),
        )
        else (ok reset_code_sent, s)
  ]

  -- `validatePasswordResetOtp`
  unfoldable pub check_otp : ℕ → String → User → Result AuthFailure User
  check_otp now otp u = elim u.password_reset_token [
    | none ↦ err invalid_otp
    | some hash ↦ elim u.password_reset_expires [
      | none ↦ err invalid_otp
      | some expires ↦
          if is_blank hash
          then err invalid_otp
          else if ltb expires now
          then err otp_expired
          else if c.compare otp hash
          then ok u
          else err invalid_otp
    ]
  ]

  unfoldable pub validate_password_reset_otp :
      ℕ → (email otp : String) → AuthState → Result AuthFailure User
  unfolding find_by_email check_otp
  validate_password_reset_otp now email otp s = elim (find_by_email c users email s.rows) [
    | none ↦ err invalid_otp
    | some u ↦ check_otp now otp u
  ]

  unfoldable pub verify_reset_otp : ℕ → (email otp : String) → AuthState → Reply
  unfolding validate_password_reset_otp
  verify_reset_otp now email otp s =
      (validate_password_reset_otp now email otp s >>= λ u. ok otp_verified, s)

  abbrev pub with_password : String → User → User
  with_password hash u = record u {
    password = some hash;
    password_reset_token = none;
    password_reset_expires = none;
  }

  unfoldable pub reset_password : ℕ → (salt email otp password : String) → AuthState → Reply
  unfolding validate_password_reset_otp merge_user
  reset_password now salt email otp password s =
      elim (validate_password_reset_otp now email otp s) [
        | err e ↦ (err e, s)
        | ok u ↦ (
          ok password_reset,
          record s { rows = merge_user c users u.id (with_password (c.hash salt password)) s.rows },
        )
      ]

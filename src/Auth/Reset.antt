-- ===== src/Auth/Reset.antt =====
-- auth.service.ts: a code that resets a password is used once.
use solsight_api.Prelude.{
  ℕ, String, true, false, some, ◌≡◌, refl, sym, ap, arith, Table, string_eq, ◌==◌, eq→≡, ≡→eq, ◌≢◌,
  Bool-cases, Option-cases, inl, inr, ◌∙◌, ok, err, Result-cases,
}
use solsight_api.Auth.Texts.{is_space_only}
use solsight_api.Auth.{
  User, user_key, PendingStore, Crypto, invalid_otp, password_reset, find_by_email, has_email,
  merge_user,
}
use solsight_api.Auth.Registration.{
  AuthState, Reply, validate_password_reset_otp, check_otp, reset_password, with_password,
}

module _ (c : Crypto) (users : Table user_key) (store : PendingStore) where
  abbrev State : Type 0
  State = AuthState c users store

  -- The unique column `email`
  abbrev pub HasOwner : String → State → Type 0
  HasOwner email s =
      (v w : User)
      → users.find v.id s.rows ≡ some v
      → users.find w.id s.rows ≡ some w
      → has_email email v ≡ true
      → has_email email w ≡ true
      → v.id ≡ w.id

  -- Who is found by an address
  found_lem :
      (email : String) (u : User) (r : users.State)
      → find_by_email c users email r ≡ some u
      → (is_space_only email ≡ false) × (has_email email u ≡ true) × (users.find u.id r ≡ some u)
  unfolding find_by_email
  found_lem email u r found = elim (Bool-cases (is_space_only email)) [
    | inl blank ↦ cc (rw blank at found)
    | inr full ↦
        let (hit, there) = users.find_where_sound (has_email email) r u (rw full at found) in
        (full, hit, there)
  ]

  validated_lem :
      (now : ℕ) (email otp : String) (u : User) (s : State)
      → validate_password_reset_otp c users store now email otp s ≡ ok u
      → find_by_email c users email s.rows ≡ some u
  unfolding validate_password_reset_otp check_otp
  validated_lem now email otp u s valid = elim (Option-cases (find_by_email c users email s.rows)) [
    | inl e ↦ cc (rw (e, validate_password_reset_otp) at valid)
    | inr (v, e) ↦ e ∙ ap some (ground (arith, rw (e, validate_password_reset_otp) at valid))
  ]

  module _ (now : ℕ) (salt email otp password : String) (s : State) (owner : HasOwner email s) where
    abbrev changed : User → User
    changed u = with_password c users store (c.hash salt password) u

    abbrev pub after : State
    after = (reset_password c users store now salt email otp password s).1

    reset_lem :
        (u : User)
        → validate_password_reset_otp c users store now email otp s ≡ ok u
        → reset_password c users store now salt email otp password s
          ≡ (ok password_reset, record s { rows = merge_user c users u.id changed s.rows })
    unfolding reset_password
    reset_lem u valid = rw (valid, reset_password)

    rows-after :
        (u : User)
        → validate_password_reset_otp c users store now email otp s ≡ ok u
        → after.rows ≡ users.save (changed u) s.rows
    unfolding merge_user
    rows-after u valid =
        let (_, _, there) = found_lem email u s.rows (validated_lem now email otp u s valid) in
        ap (λ (r : Reply c users store). r.1.rows) (reset_lem u valid) ∙ rw (there, merge_user)

    -- The address still leads to the row, which has the new password.
    found_after :
        (u : User)
        → validate_password_reset_otp c users store now email otp s ≡ ok u
        → find_by_email c users email (users.save (changed u) s.rows) ≡ some (changed u)
    unfolding find_by_email
    found_after u valid =
        let (full, hit, there) = found_lem email u s.rows (validated_lem now email otp u s valid) in
        let r = users.save (changed u) s.rows in
        let self = users.find-save_self u.id (changed u) s.rows refl in
        rw full (elim (Option-cases (users.find_where (has_email email) r)) [
          | inl e ↦ cc (users.find_where_complete (has_email email) r u.id (changed u) e self, hit)
          | inr (v, e) ↦
              let (v_hit, v_there) = users.find_where_sound (has_email email) r v e in
              elim (Bool-cases (u.id == v.id)) [
                | inl same ↦ e ∙ sym v_there ∙ rw (← eq→≡ u.id v.id same) self
                | inr other ↦
                    let apart : u.id ≢ v.id = λ q. cc (≡→eq u.id v.id q, other) in
                    absurd (
                      apart (
                        owner u v there
                          (sym (users.find-save_ne v.id (changed u) s.rows apart) ∙ v_there) hit
                          v_hit))
              ]
        ])

    -- After a reset that succeeded, where one row at most has the address: the row of the address has
    -- the new password, and every code is refused for it, the one just used too, at any time, until a
    -- new one is asked for.
    pub reset_password-once :
        (reset_password c users store now salt email otp password s).0 ≡ ok password_reset
        → (u : User) × (find_by_email c users email after.rows ≡ some u)
          × (u.password ≡ some (c.hash salt password))
          × ((later : ℕ) (code : String)
              → validate_password_reset_otp c users store later email code after ≡ err invalid_otp)
    unfolding validate_password_reset_otp check_otp reset_password
    reset_password-once done =
        elim (Result-cases (validate_password_reset_otp c users store now email otp s)) [
          | inr (f, e) ↦ cc (rw (e, reset_password) at done)
          | inl (u, e) ↦
              let found : find_by_email c users email after.rows ≡ some (changed u) =
                ap (find_by_email c users email) (rows-after u e) ∙ found_after u e in
              (changed u, found, refl, λ later code. rw (found, validate_password_reset_otp) refl)
        ]

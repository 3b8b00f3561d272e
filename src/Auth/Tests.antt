-- ===== src/Auth/Tests.antt =====
-- auth.service.ts: the theorems at concrete inputs.
use text.Mathlib.TextEquality.{eq_iff}
use solsight_api.Prelude.{
  ℕ, ◌+◌, String, true, Option, none, some, List, [], ◌∷◌, ◌≡◌, refl, arith, ltb, row_table, Table,
  string_eq, ◌==◌, eq_self, lookup, insert, delete, lookup-insert, lookup-delete, if◌then◌else◌,
  err, Bool-cases, inl, inr,
}
use solsight_api.Auth.Texts.{is_space_only, first_part}
use solsight_api.Prelude.Text.{split}
use solsight_api.Auth.{
  User, user_key, PendingRegistration, PendingStore, pending_ttl_ms, Crypto, RegisterDto, new_user,
  exists_by_email, find_by_email, invalid_otp,
}
use solsight_api.Auth.Registration.{
  AuthState, register, save_pending_registration, find_pending_by_token, verify_email,
  verify_pending, delete_pending_registration, reset_password, validate_password_reset_otp,
  check_otp, user_of,
}
use solsight_api.Auth.History.{AuthCall, registers, step, steps, WasInvited, verify_email-invited}
use solsight_api.Auth.Reset.{reset_password-once}

-- Values with the time at which they were set
abbrev Kept : Type 0 → Type 0
Kept A = List (String × (ℕ × A))

abbrev alive {ℓ} : {A : Type ℓ} → ℕ → Option (ℕ × A) → Option A
alive now none = none
alive now (some (at, v)) = if ltb now (at + pending_ttl_ms) then some v else none

get-insert :
    {A : Type 0} (at now : ℕ) (j k : String) (v : A) (m : Kept A)
    → alive now (lookup k (insert j (at, v) m)) ≡ (
        if j == k
        then (if ltb now (at + pending_ttl_ms) then some v else none)
        else alive now (lookup k m))
get-insert at now j k v m = elim (Bool-cases (j == k)) [
  | inl same ↦ rw (lookup-insert j k (at, v) m, same)
  | inr other ↦ rw (lookup-insert j k (at, v) m, other)
]

get-delete :
    {A : Type 0} (now : ℕ) (j k : String) (m : Kept A)
    → alive now (lookup k (delete j m)) ≡ (if j == k then none else alive now (lookup k m))
get-delete now j k m = elim (Bool-cases (j == k)) [
  | inl same ↦ rw (lookup-delete j k m, same)
  | inr other ↦ rw (lookup-delete j k m, other)
]

abbrev kept_store : PendingStore
kept_store = record {
  State = Kept PendingRegistration × Kept String;
  by_token = λ now k s. alive now (lookup k s.0);
  set_by_token = λ now k d s. (insert k (now, d) s.0, s.1);
  del_by_token = λ k s. (delete k s.0, s.1);
  by_email = λ now k s. alive now (lookup k s.1);
  set_by_email = λ now k t s. (s.0, insert k (now, t) s.1);
  del_by_email = λ k s. (s.0, delete k s.1);
  by_token-set = λ at now j k d s. get-insert at now j k d s.0;
  by_token-del = λ now j k s. get-delete now j k s.0;
  by_token-set_by_email = λ at now j k v s. refl;
  by_token-del_by_email = λ now j k s. refl;
  by_email-set = λ at now j k v s. get-insert at now j k v s.1;
  by_email-del = λ now j k s. get-delete now j k s.1;
  by_email-set_by_token = λ at now j k d s. refl;
  by_email-del_by_token = λ now j k s. refl;
}

compare_self : (salt p : String) → (p == p) ≡ true
compare_self salt p = eq_self p

abbrev plain_crypto : Crypto
plain_crypto = record {
  hash = λ salt p. p;
  compare = λ p h. p == h;
  sign = λ id email username. id;
  lower = λ s. s;
  compare-hash = compare_self;
}

abbrev rows : Table user_key
rows = row_table user_key

abbrev no_accounts : AuthState plain_crypto rows kept_store
no_accounts = record { rows = ([], tt); pending = ([], []); sent = [] }

abbrev new_account : RegisterDto
new_account = record {
  email = "a@x";
  password = "secret";
  username = none;
  first_name = none;
  last_name = none;
}

abbrev first_call : List (AuthCall plain_crypto rows kept_store)
first_call = registers true 3 "t1" "salt" new_account ∷ []

abbrev registration : PendingRegistration
registration = record {
  email = "a@x";
  password = "secret";
  username = "a";
  first_name = none;
  last_name = none;
  token = "t1";
}

verify_email-invited_example :
    WasInvited plain_crypto rows kept_store "t1" 5
      (user_of plain_crypto rows kept_store "u1" registration)
      (steps plain_crypto rows kept_store first_call no_accounts).sent
unfolding lookup insert delete step register save_pending_registration exists_by_email find_by_email
    is_space_only first_part split verify_email verify_pending find_pending_by_token
    delete_pending_registration
verify_email-invited_example =
    verify_email-invited plain_crypto rows kept_store first_call no_accounts true 5 "u1" "t1"
      (user_of plain_crypto rows kept_store "u1" registration)
      (record { no_token = λ now k. refl; no_email = λ now k. refl; no_mail = refl })
      (λ now k q. cc, tt) refl refl

abbrev owner : User
owner = record (new_user "u1" "a@x" "a" "old") {
  password_reset_token = some "123456";
  password_reset_expires = some 1000;
}

abbrev one_account : AuthState plain_crypto rows kept_store
one_account = record { rows = (owner ∷ [], (refl, tt)); pending = ([], []); sent = [] }

reset_password-once_example :
    (u : User) × (find_by_email plain_crypto rows "a@x"
        (reset_password plain_crypto rows kept_store 500 "salt" "a@x" "123456" "new"
          one_account).1.rows
      ≡ some u)
    × (u.password ≡ some "new")
    × ((later : ℕ) (code : String)
        → validate_password_reset_otp plain_crypto rows kept_store later "a@x" code
            (reset_password plain_crypto rows kept_store 500 "salt" "a@x" "123456" "new"
              one_account).1
          ≡ err invalid_otp)
unfolding reset_password validate_password_reset_otp check_otp find_by_email is_space_only
reset_password-once_example =
    reset_password-once plain_crypto rows kept_store 500 "salt" "a@x" "123456" "new" one_account
      (λ v w fv fw hv hw. ground (arith, fv, fw, eq_iff "u1" v.id, eq_iff "u1" w.id)) refl

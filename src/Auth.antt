-- ===== src/Auth.antt =====
-- modules/auth/services/auth.service.ts: accounts with a password: sign-in, registration by a token
-- that is sent by mail, and the reset of a password by a code. Each call runs without another in
-- between. `now` is the time of the call; ids, tokens, codes and salts are arguments.
pub mod Texts
pub mod Registration
pub mod Mailed
pub mod History
pub mod Reset
mod Tests
use solsight_api.Prelude.{
  ℕ, ◌+◌, ◌*◌, String, Bool, true, false, ◌&&◌, ◌||◌, not, Option, none, some, List, [], ◌∷◌, ltb,
  is_some, or_else, if◌then◌else◌, Result, ok, err, Table, string_eq, ◌==◌, ◌≡◌,
}
use solsight_api.Prelude.Text.{◌⊕◌, is_blank, split}
use solsight_api.Auth.Texts.{is_space_only, replace_spaces, first_part}

pub record User : Type 0 where
  pub id : String
  pub email : Option String
  pub username : String
  pub password : Option String
  pub first_name : Option String
  pub last_name : Option String
  pub avatar : Option String
  pub is_active : Bool
  pub is_email_verified : Bool
  pub email_verification_token : Option String
  pub email_verification_token_expires : Option ℕ
  pub password_reset_token : Option String
  pub password_reset_expires : Option ℕ
  pub oauth_provider : Option String
  pub oauth_id : Option String
  pub last_login_at : Option ℕ

abbrev pub user_key : User → String
user_key u = u.id

pub record PendingRegistration : Type 0 where
  pub email : String
  pub password : String
  pub username : String
  pub first_name : Option String
  pub last_name : Option String
  pub token : String

abbrev pub pending_ttl_ms : ℕ
pending_ttl_ms = 86400000

-- What the service uses of Redis: a registration under its token, and the token under the key of its
-- address, both with a time to live. The laws are those of `SET` with `EX`, `GET` and `DEL`.
pub record PendingStore : Type 1 where
  pub State : Type 0
  pub by_token : ℕ → String → State → Option PendingRegistration
  pub set_by_token : ℕ → String → PendingRegistration → State → State
  pub del_by_token : String → State → State
  pub by_email : ℕ → String → State → Option String
  pub set_by_email : ℕ → String → String → State → State
  pub del_by_email : String → State → State
  pub by_token-set :
      (at now : ℕ) (j k : String) (d : PendingRegistration) (s : State)
      → by_token now k (set_by_token at j d s) ≡ (
          if j == k
          then (if ltb now (at + pending_ttl_ms) then some d else none)
          else by_token now k s)
  pub by_token-del :
      (now : ℕ) (j k : String) (s : State)
      → by_token now k (del_by_token j s) ≡ (if j == k then none else by_token now k s)
  pub by_token-set_by_email :
      (at now : ℕ) (j k v : String) (s : State)
      → by_token now k (set_by_email at j v s) ≡ by_token now k s
  pub by_token-del_by_email :
      (now : ℕ) (j k : String) (s : State) → by_token now k (del_by_email j s) ≡ by_token now k s
  pub by_email-set :
      (at now : ℕ) (j k v : String) (s : State)
      → by_email now k (set_by_email at j v s) ≡ (
          if j == k
          then (if ltb now (at + pending_ttl_ms) then some v else none)
          else by_email now k s)
  pub by_email-del :
      (now : ℕ) (j k : String) (s : State)
      → by_email now k (del_by_email j s) ≡ (if j == k then none else by_email now k s)
  pub by_email-set_by_token :
      (at now : ℕ) (j k : String) (d : PendingRegistration) (s : State)
      → by_email now k (set_by_token at j d s) ≡ by_email now k s
  pub by_email-del_by_token :
      (now : ℕ) (j k : String) (s : State) → by_email now k (del_by_token j s) ≡ by_email now k s

-- `bcrypt.hash` with a salt, `bcrypt.compare`, `jwtService.signAsync` and `toLowerCase`
pub record Crypto : Type 0 where
  pub hash : String → String → String
  pub compare : String → String → Bool
  pub sign : String → Option String → String → String
  pub lower : String → String
  pub compare-hash : (salt p : String) → compare p (hash salt p) ≡ true

pub data Mail : Type 0 where
  -- the address `verifyBaseUrl/verify-email?token=…`, by its token
  verification : (address token : String) → Mail
  reset_code : (address otp : String) → Mail

pub data AuthFailure : Type 0 where
  email_not_found invalid_account wrong_password email_not_verified : AuthFailure
  unsupported_provider invalid_google_token create_failed : AuthFailure
  email_exists unavailable invalid_token token_expired : AuthFailure
  user_not_found already_verified invalid_otp otp_expired : AuthFailure

pub data AuthMessage : Type 0 where
  registered email_verified reset_code_sent otp_verified password_reset verification_sent :
      AuthMessage

pub record Credentials : Type 0 where
  pub email : String
  pub password : String

pub record RegisterDto : Type 0 where
  pub email : String
  pub password : String
  pub username : Option String
  pub first_name : Option String
  pub last_name : Option String

pub record GoogleTokenProfile : Type 0 where
  pub email : Option String
  pub sub : String
  pub name : Option String
  pub given_name : Option String
  pub family_name : Option String
  pub picture : Option String

-- `a || b`, for a text that may be absent
abbrev pub text_or : Option String → String → String
text_or none d = d
text_or (some s) d = if is_blank s then d else s

-- A new row, with the defaults of its columns
abbrev pub new_user : String → String → String → String → User
new_user id email username password = record {
  id = id;
  email = some email;
  username = username;
  password = some password;
  first_name = none;
  last_name = none;
  avatar = none;
  is_active = true;
  is_email_verified = false;
  email_verification_token = none;
  email_verification_token_expires = none;
  password_reset_token = none;
  password_reset_expires = none;
  oauth_provider = none;
  oauth_id = none;
  last_login_at = none;
}

abbrev pub has_email : String → User → Bool
has_email email u = elim u.email [ none ↦ false | some e ↦ e == email ]

abbrev pub has_token : String → User → Bool
has_token token u = elim u.email_verification_token [ none ↦ false | some t ↦ t == token ]

module _ (c : Crypto) (users : Table user_key) where
  unfoldable pub find_by_email : String → users.State → Option User
  find_by_email email s = if is_space_only email then none else users.find_where (has_email email) s

  unfoldable pub find_active_by_email : String → users.State → Option User
  find_active_by_email email s =
      if is_space_only email
      then none
      else users.find_where (λ u. has_email email u && u.is_active) s

  unfoldable pub exists_by_email : String → users.State → Bool
  unfolding find_by_email
  exists_by_email email s = is_some (find_by_email email s)

  -- `update`: the row is read, merged and saved.
  unfoldable pub merge_user : String → (User → User) → users.State → users.State
  merge_user id f s = elim (users.find id s) [ none ↦ s | some u ↦ users.save (f u) s ]

  abbrev access_token : User → String
  access_token u = c.sign u.id u.email u.username

  abbrev pub signed_in : ℕ → User → users.State → Result AuthFailure (User × String) × users.State
  signed_in now u s = (
    ok (record u { password = none }, access_token u),
    merge_user u.id (λ r. record r { last_login_at = some now }) s,
  )

  -- `login`
  unfoldable pub check_login : Credentials → Option User → Result AuthFailure User
  check_login dto none = err email_not_found
  check_login dto (some u) = elim u.password [
    | none ↦ err invalid_account
    | some hash ↦
        if is_blank hash
        then err invalid_account
        else if not (c.compare dto.password hash)
        then err wrong_password
        else if u.is_email_verified
        then ok u
        else err email_not_verified
  ]

  unfoldable pub login :
      ℕ → Credentials → users.State → Result AuthFailure (User × String) × users.State
  unfolding find_active_by_email merge_user check_login
  login now dto s = elim (check_login dto (find_active_by_email dto.email s)) [
    | err e ↦ (err e, s)
    | ok u ↦ signed_in now u s
  ]

  -- `handleOauthLogin`: `profile` is what Google answers for the token, `none` an error.
  unfoldable pub handle_oauth_login :
      ℕ
      → (id salt secret : String) → (creates : Bool) → (provider : String)
      → Option GoogleTokenProfile
      → users.State
      → Result AuthFailure (User × String) × users.State
  unfolding find_by_email merge_user
  handle_oauth_login now id salt secret creates provider profile s =
      if not (provider == "google") then (err unsupported_provider, s) else elim profile [
        | none ↦ (err invalid_google_token, s)
        | some p ↦
            if is_blank (or_else p.email "")
            then (err invalid_google_token, s)
            else (let email = or_else p.email "" in
                let username =
                  if is_blank (or_else p.name "")
                  then first_part b'@' email
                  else c.lower (replace_spaces (or_else p.name "")) in
                elim (find_by_email email s) [
                  | some u ↦ signed_in now u s
                  | none ↦
                      let row = record (new_user id email username (c.hash salt secret)) {
                        first_name = p.given_name;
                        last_name = p.family_name;
                        avatar = p.picture;
                        is_email_verified = true;
                        oauth_provider = some "google";
                        oauth_id = some p.sub;
                      } in
                      if creates
                      then signed_in now row (users.save row s)
                      else (err create_failed, s)
                ])
      ]

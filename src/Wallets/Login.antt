-- ===== src/Wallets/Login.antt =====
-- modules/auth: signing in with a wallet (auth.service.ts and utils/solana-signature.util.ts), on the
-- wallets of Wallets and a table of users. `signed` is `nacl.sign.detached.verify` on the decoded
-- texts, `false` where a text cannot be decoded; passwords and access tokens are left out.
pub mod SingleUse
pub mod Claims
use solsight_api.Prelude.{
  String, Bool, true, false, ◌||◌, not, Option, none, some, Table, or_else, is_some, if◌then◌else◌,
  Result, ok, err,
}
use solsight_api.Prelude.Text.{is_blank, includes_text}
use solsight_api.Wallets.{
  Wallet, wallet_key, find_one_by_address, create_with_nonce, update_nonce, update_user,
}

pub record User : Type 0 where
  pub id : String
  pub username : String
  pub is_active : Bool
  pub is_email_verified : Bool

abbrev pub user_key : User → String
user_key u = u.id

pub data AuthError : Type 0 where
  no_nonce signature_failed user_not_found wallet_not_found : AuthError

abbrev pub present : Option String → Option String
present none = none
present (some t) = if is_blank t then none else some t

-- The text whose bytes were signed; `none` is the exception
unfoldable pub resolve_solana_signed_bytes : String → Option String → Option String
resolve_solana_signed_bytes wallet_nonce signed_message = elim (present signed_message) [
  | none ↦ some wallet_nonce
  | some message ↦ if includes_text wallet_nonce message then some message else none
]

module _ (signed : String → String → String → Bool) where
  -- `verifySolanaSignature`, `false` where it throws
  unfoldable pub verify_solana_signature : String → String → String → Option String → Bool
  verify_solana_signature wallet_address signature wallet_nonce signed_message =
      elim (resolve_solana_signed_bytes wallet_nonce signed_message) [
        | none ↦ false
        | some text ↦ signed text signature wallet_address
      ]

  module _ (wallets : Table wallet_key) (users : Table user_key) where
    -- `id` and `nonce` are those that the database and `randomUUID` make.
    unfoldable pub get_solana_nonce :
        String → String → String → wallets.State → String × wallets.State
    get_solana_nonce id nonce wallet_address s =
        elim (find_one_by_address wallets wallet_address s) [
          | some w ↦ (nonce, update_nonce wallets w.id (some nonce) s)
          | none ↦ (nonce, create_with_nonce wallets id wallet_address nonce s)
        ]

    -- The wallet at the address, if its nonce was signed
    abbrev pub nonce_signed :
        String → String → Option String → Option Wallet → AuthError → Result AuthError Wallet
    nonce_signed wallet_address signature message none absent = err absent
    nonce_signed wallet_address signature message (some w) absent = elim (present w.nonce) [
      | none ↦ err no_nonce
      | some nonce ↦
          if verify_solana_signature wallet_address signature nonce message
          then ok w
          else err signature_failed
    ]

    abbrev pub user_of : Option String → users.State → Option User
    user_of none t = none
    user_of (some u) t = if is_blank u then none else users.find u t

    -- `verifySolanaWallet`: `user_id` is the user to link the wallet to, or else its own.
    unfoldable pub verify_solana_wallet :
        String
        → String
        → Option String
        → Option String
        → Option String
        → wallets.State × users.State
        → Result AuthError (Unit {0}) × wallets.State
    verify_solana_wallet wallet_address signature icon user_id message (s, t) =
        elim (nonce_signed wallet_address signature message
          (find_one_by_address wallets wallet_address s) wallet_not_found) [
            | err e ↦ (err e, s)
            | ok w ↦
                let s' = update_nonce wallets w.id none s in
                elim (user_of (if is_some (present user_id) then user_id else w.user_id) t) [
                  | none ↦ (err user_not_found, s')
                  | some user ↦ (ok tt, update_user wallets w.id user.id icon s')
                ]
          ]

    abbrev pub new_user : String → String → User
    new_user id username = record {
      id = id;
      username = username;
      is_active = true;
      is_email_verified = false;
    }

    -- `loginWithSolana`, up to the access token for the user that it returns. `id` and `username` are
    -- those of an account that is made on the way.
    unfoldable pub login_with_solana :
        String
        → String
        → String
        → String
        → Option String
        → Option String
        → wallets.State × users.State
        → Result AuthError User × (wallets.State × users.State)
    login_with_solana id username wallet_address signature icon message (s, t) =
        elim (nonce_signed wallet_address signature message
          (find_one_by_address wallets wallet_address s) no_nonce) [
            | err e ↦ (err e, (s, t))
            | ok w ↦
                let s' = update_nonce wallets w.id none s in
                elim (user_of w.user_id t) [
                  | some user ↦ (ok user, (s', t))
                  | none ↦
                      let user = new_user id username in
                      (
                        ok user,
                        (
                          update_user wallets w.id id (some (or_else (present icon) "phantom")) s',
                          users.save user t,
                        ),
                      )
                ]
          ]

-- ===== src/Wallets/Tests.antt =====
-- modules/wallets and the sign-in with a wallet: the theorems at concrete inputs, on rows in a list.
use mathlib.Core.Option
use text.Mathlib.TextEquality.{eq_iff}
use solsight_api.Prelude.{
  ℕ, String, Bool, true, Option, none, some, [], ◌∷◌, ◌≡◌, refl, arith, ◌==◌, string_eq, row_table,
  ok,
}
use solsight_api.Cluster.{Cluster, devnet}
use solsight_api.Wallets.{
  Wallet, wallet_key, CreateWallet, new_wallet, create, set_default_for_address,
}
use solsight_api.Wallets.Ownership.{chosen, set_default_for_address-chosen}
use solsight_api.Wallets.Addresses.{IsUniqueAddress}
use solsight_api.Wallets.Login.{
  User, user_key, login_with_solana, verify_solana_signature, resolve_solana_signed_bytes,
}
use solsight_api.Wallets.Login.Claims.{login_with_solana-create}

abbrev dto_at : String → CreateWallet
dto_at address = record { address = address; name = none; icon = none; is_active = none }

abbrev ann_first : Wallet
ann_first = record (new_wallet "1" "ann" (dto_at "A")) { is_default = true; nonce = some "n1" }

abbrev ann_second : Wallet
ann_second = new_wallet "2" "ann" (dto_at "B")

abbrev bob_only : Wallet
bob_only = new_wallet "3" "bob" (dto_at "C")

abbrev rows : (row_table wallet_key).State
rows = (ann_first ∷ ann_second ∷ bob_only ∷ [], (refl, (refl, (refl, tt))))

set_default_for_address-chosen_example :
    ((set_default_for_address (row_table wallet_key) "ann" "B" rows).0
      ≡ ok (record ann_second { is_default = true }))
    × ((k : String)
        → (row_table wallet_key).find k
            (set_default_for_address (row_table wallet_key) "ann" "B" rows).1
          ≡ Option.map
              (chosen (row_table wallet_key) "ann" "2")
              ((row_table wallet_key).find k rows))
set_default_for_address-chosen_example =
    set_default_for_address-chosen (row_table wallet_key) "ann" "B" rows ann_second refl

-- A signature is the text itself.
abbrev echoes : String → String → String → Bool
echoes text signature address = text == signature

abbrev one_row : (row_table wallet_key).State
one_row = (ann_first ∷ [], (refl, tt))

abbrev accounts : (row_table user_key).State
accounts = ([], tt)

-- A wallet with a nonce and no owner, and the account of a user who never held its key
abbrev free_wallet : Wallet
free_wallet = record ann_first { user_id = none }

abbrev free_row : (row_table wallet_key).State
free_row = (free_wallet ∷ [], (refl, tt))

abbrev bob_account : User
bob_account = record { id = "bob"; username = "bob"; is_active = true; is_email_verified = true }

free_row-IsUniqueAddress : IsUniqueAddress (row_table wallet_key) free_row
free_row-IsUniqueAddress j k a b e f q = ground (arith, eq_iff "1" j, eq_iff "1" k)

abbrev some_balance : Cluster → String → Option ℕ
some_balance cluster address = some 12

login_with_solana-create_example :
    (login_with_solana echoes
      (row_table wallet_key)
      (row_table user_key)
      "u2"
      "sol"
      "A"
      "n1"
      none
      none
      (
        (create
            (row_table wallet_key)
            (λ a. true)
            some_balance
            "9"
            devnet
            "bob"
            (dto_at "A")
            free_row).1,
        (bob_account ∷ [], (refl, tt)),
      )).0
    ≡ ok bob_account
unfolding verify_solana_signature resolve_solana_signed_bytes
login_with_solana-create_example =
    login_with_solana-create echoes (row_table wallet_key) (row_table user_key) (λ a. true)
      some_balance "9" "u2" devnet "bob" (dto_at "A") free_wallet 12 free_row
      (bob_account ∷ [], (refl, tt)) "n1" "n1" "sol" none none bob_account free_row-IsUniqueAddress
      refl refl refl refl refl refl refl refl

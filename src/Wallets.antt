-- ===== src/Wallets.antt =====
-- modules/wallets/services/wallets.service.ts: the wallets of the users. The chain is a parameter:
-- `valid` is `validatePublicKey`, and `get_balance` is `getBalance`, `none` where it throws. A balance
-- is in units of the ninth decimal. The joins for the display of positions are left out.
pub mod Ownership
pub mod Addresses
pub mod Login
mod Tests
use solsight_api.Prelude.{
  ℕ, String, Bool, true, false, ◌&&◌, not, Option, none, some, List, [], ◌∷◌, or_else, Table,
  update_row, if◌then◌else◌, ◌==◌, string_eq, Result, ok, err, ◌>>=◌, or_throw, guard,
}
use solsight_api.Prelude.Text.{is_blank}
use solsight_api.Cluster.{Cluster}

-- `Wallet`, less the columns that no operation of the service reads
pub record Wallet : Type 0 where
  pub id : String
  pub address : String
  pub nonce : Option String
  pub user_id : Option String
  pub name : Option String
  pub icon : Option String
  pub is_active : Bool
  pub is_verified : Bool
  pub is_default : Bool
  pub is_connected : Bool
  pub balance : ℕ

abbrev pub wallet_key : Wallet → String
wallet_key w = w.id

pub data WalletError : Type 0 where
  invalid_address already_exists not_found balance_failed : WalletError

pub record CreateWallet : Type 0 where
  pub address : String
  pub name : Option String
  pub icon : Option String
  pub is_active : Option Bool

-- `Partial<Wallet>`, as the routes pass it
pub record WalletPatch : Type 0 where
  pub name : Option String
  pub icon : Option String
  pub is_active : Option Bool
  pub is_verified : Option Bool

abbrev pub over {ℓ} : {A : Type ℓ} → Option A → Option A → Option A
over none old = old
over (some new) old = some new

abbrev pub is_mine : String → Option String → Bool
is_mine user_id none = false
is_mine user_id (some u) = u == user_id

-- `existingWallet.userId && existingWallet.userId !== userId`
abbrev pub is_taken : String → Option String → Bool
is_taken user_id none = false
is_taken user_id (some u) = not (is_blank u) && not (u == user_id)

abbrev pub has_address : String → Wallet → Bool
has_address address w = w.address == address

abbrev pub owned_at : String → String → Wallet → Bool
owned_at user_id address w = w.address == address && is_mine user_id w.user_id

-- `merge`: a field that is not given keeps its value
abbrev pub patched : WalletPatch → Wallet → Wallet
patched p w = record w {
  name = over p.name w.name;
  icon = over p.icon w.icon;
  is_active = or_else p.is_active w.is_active;
  is_verified = or_else p.is_verified w.is_verified;
}

abbrev pub claimed : String → CreateWallet → Wallet → Wallet
claimed user_id dto w = record w {
  name = over dto.name w.name;
  icon = over dto.icon w.icon;
  is_active = or_else dto.is_active w.is_active;
  user_id = some user_id;
  is_connected = true;
}

abbrev pub new_wallet : String → String → CreateWallet → Wallet
new_wallet id user_id dto = record {
  id = id;
  address = dto.address;
  nonce = none;
  user_id = some user_id;
  name = dto.name;
  icon = dto.icon;
  is_active = or_else dto.is_active true;
  is_verified = false;
  is_default = false;
  is_connected = true;
  balance = 0;
}

module _ (wallets : Table wallet_key) where
  unfoldable pub find_by_id : String → wallets.State → Result WalletError Wallet
  find_by_id id s = or_throw (wallets.find id s) not_found

  unfoldable pub find_one_by_address : String → wallets.State → Option Wallet
  find_one_by_address address s = wallets.find_where (has_address address) s

  abbrev pub with_nonce : Option String → Wallet → Wallet
  with_nonce nonce w = record w { nonce = nonce }

  unfoldable pub create_with_nonce : String → String → String → wallets.State → wallets.State
  create_with_nonce id address nonce s =
      wallets.save
        (record {
          id = id;
          address = address;
          nonce = some nonce;
          user_id = none;
          name = none;
          icon = none;
          is_active = true;
          is_verified = false;
          is_default = false;
          is_connected = false;
          balance = 0;
        })
        s

  unfoldable pub update_nonce : String → Option String → wallets.State → wallets.State
  update_nonce id nonce s = update_row wallets id (with_nonce nonce) s

  -- An icon that is not given is not written.
  abbrev pub linked : String → Option String → Wallet → Wallet
  linked user_id icon w = record w { user_id = some user_id; icon = over icon w.icon }

  unfoldable pub update_user : String → String → Option String → wallets.State → wallets.State
  update_user id user_id icon s = update_row wallets id (linked user_id icon) s

  module _ (valid : String → Bool) (get_balance : Cluster → String → Option ℕ) where
    abbrev pub with_balance : ℕ → Wallet → Wallet
    with_balance b w = record w { balance = b }

    abbrev pub refreshed :
        String → Option ℕ → wallets.State → Result WalletError Wallet × wallets.State
    refreshed id none s = (err balance_failed, s)
    refreshed id (some b) s =
        let s' = update_row wallets id (with_balance b) s in (find_by_id id s', s')

    unfoldable pub update_balance :
        Cluster → String → wallets.State → Result WalletError Wallet × wallets.State
    update_balance cluster id s = elim (wallets.find id s) [
      | none ↦ (err not_found, s)
      | some w ↦ refreshed id (get_balance cluster w.address) s
    ]

    -- What `create` does once the row is saved; the row stays when the balance cannot be had.
    abbrev pub after_save :
        Cluster → String → wallets.State → Result WalletError Wallet × wallets.State
    after_save cluster id s =
        let (r, s') = update_balance cluster id s in (r >>= (λ w. find_by_id id s'), s')

    -- `id` is the one that the database gives a new row.
    unfoldable pub create :
        String
        → Cluster
        → String
        → CreateWallet
        → wallets.State
        → Result WalletError Wallet × wallets.State
    create id cluster user_id dto s =
        if valid dto.address
        then elim (wallets.find_where (has_address dto.address) s) [
          | some w ↦
              if is_taken user_id w.user_id
              then (err already_exists, s)
              else after_save cluster w.id (wallets.save (claimed user_id dto w) s)
          | none ↦ after_save cluster id (wallets.save (new_wallet id user_id dto) s)
        ]
        else (err invalid_address, s)

  -- `update` with a patch that leaves the address as it is, which is all that `verifyWallet`,
  -- `activateWallet` and `deactivateWallet` need
  unfoldable pub update :
      String → WalletPatch → wallets.State → Result WalletError Wallet × wallets.State
  update id p s = elim (wallets.find id s) [
    | none ↦ (err not_found, s)
    | some w ↦ (ok (patched p w), wallets.save (patched p w) s)
  ]

  unfoldable pub update_by_address :
      String → String → WalletPatch → wallets.State → Result WalletError Wallet × wallets.State
  update_by_address user_id address p s = elim (wallets.find_where (owned_at user_id address) s) [
    | none ↦ (err not_found, s)
    | some w ↦ let s' = wallets.save (patched p w) s in (find_by_id w.id s', s')
  ]

  unfoldable pub delete_by_address :
      String → String → wallets.State → Result WalletError (Unit {0}) × wallets.State
  delete_by_address user_id address s = elim (wallets.find_where (owned_at user_id address) s) [
    | none ↦ (err not_found, s)
    | some w ↦ (ok tt, wallets.remove w.id s)
  ]

  abbrev pub not_default : String → Wallet → Wallet
  not_default user_id w = if is_mine user_id w.user_id then record w { is_default = false } else w

  abbrev pub as_default : Wallet → Wallet
  as_default w = record w { is_default = true }

  unfoldable pub set_default_for_address :
      String → String → wallets.State → Result WalletError Wallet × wallets.State
  set_default_for_address user_id address s =
      elim (wallets.find_where (owned_at user_id address) s) [
        | none ↦ (err not_found, s)
        | some w ↦
            let s' =
              update_row wallets w.id as_default (wallets.update_all (not_default user_id) s) in
            (find_by_id w.id s', s')
      ]

  unfoldable pub delete : String → wallets.State → Result WalletError (Unit {0}) × wallets.State
  delete id s = elim (wallets.find id s) [
    | none ↦ (err not_found, s)
    | some w ↦ (ok tt, wallets.remove id s)
  ]

  abbrev no_change : WalletPatch
  no_change = record { name = none; icon = none; is_active = none; is_verified = none }

  unfoldable pub verify_wallet : String → wallets.State → Result WalletError Wallet × wallets.State
  unfolding update
  verify_wallet id s = update id (record no_change { is_verified = some true }) s

  unfoldable pub deactivate_wallet :
      String → wallets.State → Result WalletError Wallet × wallets.State
  unfolding update
  deactivate_wallet id s = update id (record no_change { is_active = some false }) s

  unfoldable pub activate_wallet :
      String → wallets.State → Result WalletError Wallet × wallets.State
  unfolding update
  activate_wallet id s = update id (record no_change { is_active = some true }) s

-- ===== src/Wallets/Login/Claims.antt =====
-- A wallet that nobody owns yet is claimed without a signature: what its holder finds at the first
-- sign-in.
use mathlib.Core.Option
use solsight_api.Prelude.{
  ℕ, String, Bool, true, false, Option, none, some, ◌≡◌, refl, ◌∙◌, ap, Table, find-update_row_self,
  find-update_row_ne, ok,
}
use solsight_api.Prelude.Text.{is_blank}
use solsight_api.Cluster.{Cluster}
use solsight_api.Wallets.{
  Wallet, wallet_key, CreateWallet, has_address, find_one_by_address, claimed, with_balance,
  update_balance, after_save, create,
}
use solsight_api.Wallets.Addresses.{IsUniqueAddress, Changed, find_where-Changed}
use solsight_api.Wallets.Login.{
  User, user_key, present, verify_solana_signature, nonce_signed, user_of, login_with_solana,
}

module _ (signed : String → String → String → Bool) (wallets : Table wallet_key)
    (users : Table user_key) (valid : String → Bool)
    (get_balance : Cluster → String → Option ℕ) where
  create-Changed :
      (id : String) (cluster : Cluster) (u : String) (dto : CreateWallet) (w : Wallet) (b : ℕ)
      (s : wallets.State)
      → valid dto.address ≡ true
      → wallets.find_where (has_address dto.address) s ≡ some w
      → w.user_id ≡ none
      → get_balance cluster w.address ≡ some b
      → Changed wallets w
          (with_balance wallets valid get_balance b (claimed u dto w))
          s
          (create wallets valid get_balance id cluster u dto s).1
  unfolding create update_balance
  create-Changed id cluster u dto w b s good e free known =
      let s1 = wallets.save (claimed u dto w) s in
      let saved : wallets.find w.id s1 ≡ some (claimed u dto w) =
        wallets.find-save_self w.id (claimed u dto w) s refl in
      rw (good, e, create)
        (rw free (
          rw (saved, after_save, update_balance)
            (rw known (record {
              others = λ k ne.
                  find-update_row_ne wallets w.id k (with_balance wallets valid get_balance b) s1
                    (λ x. refl) ne
                  ∙ wallets.find-save_ne k (claimed u dto w) s ne;
              row =
                  find-update_row_self wallets w.id (with_balance wallets valid get_balance b) s1
                    (λ x. refl)
                  ∙ ap (Option.map (with_balance wallets valid get_balance b)) saved;
              address = refl;
            }))))

  opened_lem :
      (id username a sig : String) (icon m : Option String) (s : wallets.State) (t : users.State)
      (v : Wallet) (nonce u : String) (account : User)
      → find_one_by_address wallets a s ≡ some v
      → present v.nonce ≡ some nonce
      → verify_solana_signature signed a sig nonce m ≡ true
      → v.user_id ≡ some u
      → is_blank u ≡ false
      → users.find u t ≡ some account
      → (login_with_solana signed wallets users id username a sig icon m (s, t)).0 ≡ ok account
  unfolding login_with_solana
  opened_lem id username a sig icon m s t v nonce u account found fresh good owner full there =
      rw (found, login_with_solana)
        (rw (fresh, nonce_signed, login_with_solana)
          (rw (good, login_with_solana)
            (rw (owner, user_of, login_with_solana) (rw full (rw there)))))

  -- Any user can take a wallet that nobody owns yet by its address alone, without a signature; the
  -- next sign-in of the wallet's holder, with a good signature, then opens that user's account.
  pub login_with_solana-create :
      (id new_id : String) (cluster : Cluster) (u : String) (dto : CreateWallet) (w : Wallet)
      (b : ℕ) (s : wallets.State) (t : users.State) (nonce sig username : String)
      (icon m : Option String) (account : User)
      → IsUniqueAddress wallets s
      → valid dto.address ≡ true
      → wallets.find_where (has_address dto.address) s ≡ some w
      → w.user_id ≡ none
      → get_balance cluster w.address ≡ some b
      → is_blank u ≡ false
      → users.find u t ≡ some account
      → present w.nonce ≡ some nonce
      → verify_solana_signature signed dto.address sig nonce m ≡ true
      → (login_with_solana signed wallets users new_id username dto.address sig icon m
          ((create wallets valid get_balance id cluster u dto s).1, t)).0
        ≡ ok account
  unfolding find_one_by_address
  login_with_solana-create id new_id cluster u dto w b s t nonce sig username icon m account unique
        good e free known full there fresh check =
      let s' = (create wallets valid get_balance id cluster u dto s).1 in
      opened_lem new_id username dto.address sig icon m s' t _ nonce u account
        (find_where-Changed wallets dto.address w _ s s' unique e
          (create-Changed id cluster u dto w b s good e free known))
        fresh check refl full there

-- ===== src/Wallets/Ownership.antt =====
-- wallets.service.ts: whose rows an operation writes, and the default wallet.
use mathlib.Core.Option
use text.Mathlib.TextEquality.{eq_iff}
use solsight_api.Prelude.{
  ℕ, String, Bool, true, false, Option, none, some, ◌≡◌, ◌≢◌, refl, sym, ◌∙◌, ap, arith, Table,
  find-update_row_self, find-update_row_ne, Option-cases, Bool-cases, inl, inr, if◌then◌else◌, ◌==◌,
  string_eq, eq_self, eq→≡, ok, err,
}
use solsight_api.Prelude.Text.{is_blank}
use solsight_api.Cluster.{Cluster}
use solsight_api.Wallets.{
  Wallet, wallet_key, balance_failed, CreateWallet, is_mine, is_taken, has_address, owned_at,
  claimed, new_wallet, find_by_id, update_balance, after_save, with_balance, create, not_default,
  as_default, set_default_for_address,
}

module _ (wallets : Table wallet_key) where
  -- A row after the user chose the wallet with the id: it is the default, the user's other wallets
  -- are not, and the rows of others and of nobody are as they were
  abbrev pub chosen : String → String → Wallet → Wallet
  chosen user_id id w = if w.id == id then record w { is_default = true } else elim w.user_id [
    | none ↦ w
    | some owner ↦ if owner == user_id then record w { is_default = false } else w
  ]

  by_owner :
      (u : String) (o : Option String) (x y : Wallet)
      → (if is_mine u o then x else y)
        ≡ (elim o [ none ↦ y | some owner ↦ if owner == u then x else y ])
  by_owner u none x y = refl
  by_owner u (some owner) x y = refl

  others_lem :
      (u : String) (r : Wallet)
      → not_default wallets u r ≡ (elim r.user_id [
        | none ↦ r
        | some owner ↦ if owner == u then record r { is_default = false } else r
      ])
  others_lem u r = by_owner u r.user_id (record r { is_default = false }) r

  as-not_default :
      (u : String) (r : Wallet)
      → as_default wallets (not_default wallets u r) ≡ record r { is_default = true }
  as-not_default u r = elim (Bool-cases (is_mine u r.user_id)) [ inl e ↦ rw e | inr e ↦ rw e ]

  chosen_self :
      (u k : String) (r : Wallet) → r.id ≡ k → chosen u k r ≡ record r { is_default = true }
  chosen_self u k r e = rw (e, eq_self k)

  chosen_other :
      (u i k : String) (r : Wallet)
      → r.id ≡ k
      → (i == k) ≡ false
      → chosen u i r ≡ not_default wallets u r
  chosen_other u i k r e other =
      let ne : (r.id == i) ≡ false = ground (arith, e, other, eq_iff k i, eq_iff i k) in
      rw ne (sym (others_lem u r))

  find-set_default :
      (u address : String) (s : wallets.State) (w : Wallet)
      → wallets.find_where (owned_at u address) s ≡ some w
      → (k : String)
      → wallets.find k (set_default_for_address wallets u address s).1
        ≡ Option.map (chosen u w.id) (wallets.find k s)
  unfolding set_default_for_address
  find-set_default u address s w e k =
      let s1 = wallets.update_all (not_default wallets u) s in
      let all : wallets.find k s1 ≡ Option.map (not_default wallets u) (wallets.find k s) =
        wallets.find-update_all (not_default wallets u) k s (λ r. ground arith) in
      rw (e, set_default_for_address)
        (elim (Bool-cases (w.id == k)) [
          | inl same ↦
              rw
                (
                  eq→≡ w.id k same,
                  find-update_row_self wallets k (as_default wallets) s1 (λ r. refl),
                  all,
                )
                (elim (Option-cases (wallets.find k s)) [
                  | inl gone ↦ rw gone
                  | inr (r, there) ↦ rw there (
                      ap some (
                        as-not_default u r
                        ∙ sym (chosen_self u k r (wallets.find-key k s r there))))
                ])
          | inr other ↦
              rw
                (
                  find-update_row_ne wallets w.id k (as_default wallets) s1 (λ r. refl)
                      (λ q. cc (rw (q, eq_self k) at other)),
                  all,
                )
                (elim (Option-cases (wallets.find k s)) [
                  | inl gone ↦ rw gone
                  | inr (r, there) ↦
                      rw there (
                        ap some
                          (sym (chosen_other u w.id k r (wallets.find-key k s r there) other)))
                ])
        ])

  set_default_lem :
      (u address : String) (s : wallets.State) (w : Wallet)
      → wallets.find_where (owned_at u address) s ≡ some w
      → (set_default_for_address wallets u address s).0
        ≡ find_by_id wallets w.id (set_default_for_address wallets u address s).1
  unfolding set_default_for_address
  set_default_lem u address s w e = rw (e, set_default_for_address)

  -- When a user chooses the wallet at an address, it becomes the default, every other wallet of the
  -- user stops being it, and nothing else changes in any row: the rows of other users and of nobody are
  -- as they were.
  pub set_default_for_address-chosen :
      (u address : String) (s : wallets.State) (w : Wallet)
      → wallets.find_where (owned_at u address) s ≡ some w
      → ((set_default_for_address wallets u address s).0 ≡ ok (record w { is_default = true }))
        × ((k : String)
            → wallets.find k (set_default_for_address wallets u address s).1
              ≡ Option.map (chosen u w.id) (wallets.find k s))
  unfolding find_by_id
  set_default_for_address-chosen u address s w e =
      let (fits, there) = wallets.find_where_sound (owned_at u address) s w e in
      (
        rw (set_default_lem u address s w e, find-set_default u address s w e w.id, there)
            (ap ok (chosen_self u w.id w refl)),
        find-set_default u address s w e,
      )

  module _ (valid : String → Bool) (get_balance : Cluster → String → Option ℕ) where
    find-after_save :
        (id : String) (cluster : Cluster) (k : String) (s : wallets.State)
        → id ≢ k
        → wallets.find k (after_save wallets valid get_balance cluster id s).1 ≡ wallets.find k s
    unfolding update_balance
    find-after_save id cluster k s ne = elim (Option-cases (wallets.find id s)) [
      | inl e ↦ rw (e, after_save, update_balance)
      | inr (w, e) ↦
          rw (e, after_save, update_balance)
            (elim (Option-cases (get_balance cluster w.address)) [
              | inl away ↦ rw away
              | inr (b, known) ↦ rw known (
                  find-update_row_ne wallets id k (with_balance wallets valid get_balance b) s
                    (λ x. refl) ne)
            ])
    ]

    same_owner :
        (u v : String) (w r : Wallet) (k : String) (s : wallets.State)
        → w.id ≡ k
        → wallets.find w.id s ≡ some w
        → wallets.find k s ≡ some r
        → r.user_id ≡ some v
        → is_taken u (some v) ≡ true
        → is_taken u w.user_id ≡ false
        → ⊥
    same_owner u v w r k s q held there of other mine =
        let e : ◌≡◌ {A = Option Wallet} (some w) (some r) =
          sym held ∙ (ap (λ j. wallets.find j s) q ∙ there) in
        let same : w.user_id ≡ some v = ground (arith, e, of) in cc (rw same at mine)

    -- Whatever `create` answers, a wallet that belongs to another user, one with a name that is not
    -- empty, stays as it is; the id of a new row is new.
    pub create_others :
        (id : String) (cluster : Cluster) (u v : String) (dto : CreateWallet) (s : wallets.State)
        (k : String) (r : Wallet)
        → wallets.find id s ≡ none
        → wallets.find k s ≡ some r
        → r.user_id ≡ some v
        → is_blank v ≡ false
        → v ≢ u
        → wallets.find k (create wallets valid get_balance id cluster u dto s).1 ≡ some r
    unfolding create
    create_others id cluster u v dto s k r new there of full ne_owner =
        let other : is_taken u (some v) ≡ true = ground (arith, full, eq_iff v u, ne_owner) in
        elim (Bool-cases (valid dto.address)) [
          | inr bad ↦ rw bad there
          | inl good ↦
              rw good (elim (Option-cases (wallets.find_where (has_address dto.address) s)) [
                | inl free ↦
                    let ne : id ≢ k = λ q. cc (rw q at new) in
                    rw (free, create)
                      (find-after_save id cluster k (wallets.save (new_wallet id u dto) s) ne
                        ∙ (wallets.find-save_ne k (new_wallet id u dto) s ne ∙ there))
                | inr (w, e) ↦
                    let (fits, held) = wallets.find_where_sound (has_address dto.address) s w e in
                    rw (e, create)
                      (elim (Bool-cases (is_taken u w.user_id)) [
                        | inl taken ↦ rw taken there
                        | inr mine ↦
                            let ne : w.id ≢ k =
                              λ q. same_owner u v w r k s q held there of other mine in
                            rw mine (
                              find-after_save w.id cluster k (wallets.save (claimed u dto w) s) ne
                              ∙ (wallets.find-save_ne k (claimed u dto w) s ne ∙ there))
                      ])
              ])
        ]

    -- A new address whose balance cannot be read: the call fails, and the wallet is stored all the same.
    pub create_balance_failed :
        (id : String) (cluster : Cluster) (u : String) (dto : CreateWallet) (s : wallets.State)
        → valid dto.address ≡ true
        → wallets.find_where (has_address dto.address) s ≡ none
        → get_balance cluster dto.address ≡ none
        → ((create wallets valid get_balance id cluster u dto s).0 ≡ err balance_failed)
          × (wallets.find id (create wallets valid get_balance id cluster u dto s).1
              ≡ some (new_wallet id u dto))
    unfolding create update_balance
    create_balance_failed id cluster u dto s good free away =
        let row = new_wallet id u dto in
        let s1 = wallets.save row s in
        let saved : wallets.find id s1 ≡ some row = wallets.find-save_self id row s refl in
        rw (good, free) (rw (saved, after_save, update_balance) (rw away (refl, saved)))

-- ===== src/Wallets/Addresses.antt =====
-- The wallet that is found at an address, where no two rows have the same address.
use solsight_api.Prelude.{
  String, false, Option, some, ◌≡◌, ◌≢◌, sym, ◌∙◌, ap, Table, Option-cases, Bool-cases, inl, inr,
  ◌==◌, string_eq, eq_self, eq→≡,
}
use solsight_api.Wallets.{Wallet, wallet_key, has_address}

module _ (wallets : Table wallet_key) where
  -- The unique index of the column
  abbrev pub IsUniqueAddress : wallets.State → Type 0
  IsUniqueAddress s =
      (j k : String) (a b : Wallet)
      → wallets.find j s ≡ some a
      → wallets.find k s ≡ some b
      → a.address ≡ b.address
      → j ≡ k

  -- The row of `w` became `v`, at the same address, and no other row was written.
  pub record Changed (w v : Wallet) (s s' : wallets.State) : Type 0 where
    pub others : (k : String) → w.id ≢ k → wallets.find k s' ≡ wallets.find k s
    pub row : wallets.find w.id s' ≡ some v
    pub address : v.address ≡ w.address

  same_row : (a b : Wallet) → ◌≡◌ {A = Option Wallet} (some a) (some b) → a ≡ b
  same_row a b e = cc

  pub find_where-Changed :
      (address : String) (w v : Wallet) (s s' : wallets.State)
      → IsUniqueAddress s
      → wallets.find_where (has_address address) s ≡ some w
      → Changed w v s s'
      → wallets.find_where (has_address address) s' ≡ some v
  find_where-Changed address w v s s' unique e change =
      let (at, held) = wallets.find_where_sound (has_address address) s w e in
      elim (Option-cases (wallets.find_where (has_address address) s')) [
        | inl gone ↦
            let missed : has_address address v ≡ false =
              wallets.find_where_complete (has_address address) s' w.id v gone change.row in
            let moved : w.address ≡ address = eq→≡ w.address address at in
            cc (rw (change.address, moved, eq_self address) at missed)
        | inr (r, found) ↦
            let (there, row) = wallets.find_where_sound (has_address address) s' r found in
            rw found (elim (Bool-cases (w.id == r.id)) [
              | inl same ↦ ap some (
                  same_row r v (
                    sym row
                    ∙ (ap (λ k. wallets.find k s') (sym (eq→≡ w.id r.id same)) ∙ change.row)))
              | inr other ↦
                  let ne : w.id ≢ r.id = λ q. cc (rw (q, eq_self r.id) at other) in
                  let one : w.address ≡ r.address =
                    eq→≡ w.address address at ∙ sym (eq→≡ r.address address there) in
                  cc (
                    rw
                      (
                        unique w.id r.id w r held (sym (change.others r.id ne) ∙ row) one,
                        eq_self r.id,
                      )
                      at other)
            ])
      ]

-- ===== src/Staking/Positions/Chunks.antt =====
-- StakingService.getMultipleAccountsInfoChunked: the answer does not show how the addresses were cut.
use solsight_api.Prelude.{
  ℕ, zero, suc, ◌≤◌, Option, List, [], ◌∷◌, ◌++◌, map, take, drop, length, length-take, length-drop,
  take-append-drop, ◌≡◌, refl, sym, ap, ◌∙◌, arith, Result, ok, ◌>>=◌, bind_congr, or_throw, none,
  some, Option-cases, inl, inr, keep, ◌-◌, ◌*◌, ◌&&◌, ◌==◌, string_eq,
}
use mathlib.Core.List.{map-append}
use mathlib.Core.Option
use solsight_api.Cluster.{Cluster, cluster_beq}
use solsight_api.Staking.Types
use solsight_api.Staking.Types.{StakingError, PublicKey, NativeAccount}
use solsight_api.Staking.Chain.{Web3, AccountInfo}
use solsight_api.Staking.Accounts.{
  NativeStakeAccountState, decode_native_stake_account, classify_native_stake_status,
}
use solsight_api.Staking.Positions.{
  chunks, flatten, get_multiple_accounts_info_chunked, get_multiple_accounts_chunk_size,
  get_native_positions, NativeStakePositionsPage, NativePosition, position_of, positions_of,
  add_item, keys_of, own_rows, page_of,
}

module _ (get_account : PublicKey → Option AccountInfo)
    (get_multiple : List PublicKey → List (Option AccountInfo)) where
  -- What the node promises for one call: at most 100 addresses, an answer for each in their order
  abbrev pub AnswersCalls : Type 0
  AnswersCalls =
      (keys : List PublicKey)
      → length keys ≤ get_multiple_accounts_chunk_size
      → get_multiple keys ≡ map get_account keys

  chunks_lem :
      AnswersCalls
      → (fuel : ℕ) (addresses : List PublicKey) → length addresses ≤ fuel
      → flatten (map get_multiple (chunks fuel addresses)) ≡ map get_account addresses
  unfolding chunks
  chunks_lem promise zero [] h = refl
  chunks_lem promise zero (a ∷ rest) h = absurd (omega (arith, h))
  chunks_lem promise (suc fuel) [] h = refl
  chunks_lem promise (suc fuel) (a ∷ rest) h =
      let size = get_multiple_accounts_chunk_size in
      let front = take size (a ∷ rest) in
      let back = drop size (a ∷ rest) in
      ap (λ (xs : List (Option AccountInfo)). xs ++ flatten (map get_multiple (chunks fuel back)))
        (promise front (omega (arith, length-take size (a ∷ rest))))
      ∙ ap (λ (xs : List (Option AccountInfo)). map get_account front ++ xs)
          (chunks_lem promise fuel back (omega (arith, h, length-drop size (a ∷ rest))))
      ∙ sym (map-append get_account front back)
      ∙ ap (map get_account) (take-append-drop size (a ∷ rest))

  chunked_lem :
      AnswersCalls
      → (addresses : List PublicKey)
      → get_multiple_accounts_info_chunked get_multiple addresses ≡ map get_account addresses
  unfolding get_multiple_accounts_info_chunked
  chunked_lem promise addresses = chunks_lem promise (length addresses) addresses (omega arith)

  module _ (w : Web3) (epoch : ℕ) where
    -- The item for an address and its account, if the account is a stake
    abbrev item_of : PublicKey → Option AccountInfo → Result StakingError (Option NativePosition)
    item_of address none = ok none
    item_of address (some info) = do
      decoded ← decode_native_stake_account info.data_bytes
      ok (
          Option.map
            (λ (state : NativeStakeAccountState). record {
              address = w.to_base58 address;
              vote_account = w.to_base58 state.vote_account;
              stake_lamports = state.stake_lamports;
              status = classify_native_stake_status state epoch;
            })
            decoded)

    abbrev with_item : Option NativePosition → List NativePosition → List NativePosition
    with_item none items = items
    with_item (some item) items = item ∷ items

    -- The items of a wallet, for accounts that are asked for one by one
    unfoldable pub asked : List PublicKey → Result StakingError (List NativePosition)
    asked [] = ok []
    asked (a ∷ addresses) = do
      item ← item_of a (get_account a)
      items ← asked addresses
      ok (with_item item items)

    -- The addresses of rows, or an error where one is no key
    abbrev pub addresses_of : List NativeAccount → Result StakingError (List PublicKey)
    addresses_of [] = ok []
    addresses_of (row ∷ rows) = do
      key ← or_throw (w.new_public_key row.address) Types.invalid_key
      keys ← addresses_of rows
      ok (key ∷ keys)

    addresses_lem : (rows : List NativeAccount) → keys_of w rows ≡ addresses_of rows
    addresses_lem [] = refl
    addresses_lem (row ∷ rows) = rw (addresses_lem rows)

    item_lem : (a : PublicKey) (o : Option AccountInfo) → position_of w epoch a o ≡ item_of a o
    unfolding position_of
    item_lem a none = refl
    item_lem a (some info) =
        bind_congr (decode_native_stake_account info.data_bytes) _ _
          (λ decoded. elim (Option-cases decoded) [ inl e ↦ rw e | inr (state, e) ↦ rw e ])

    with_lem :
        (item : Option NativePosition) (items : List NativePosition)
        → add_item w item items ≡ with_item item items
    with_lem none items = refl
    with_lem (some item) items = refl

    asked_lem :
        (addresses : List PublicKey)
        → positions_of w epoch addresses (map get_account addresses) ≡ asked addresses
    unfolding positions_of asked
    asked_lem [] = refl
    asked_lem (a ∷ addresses) =
        rw (asked_lem addresses, item_lem a (get_account a))
          (bind_congr (item_of a (get_account a)) _ _ (λ item.
            bind_congr (asked addresses) _ _
              (λ items. ap (λ (l : List NativePosition). ok l) (with_lem item items))))

    -- Where the node answers each call of at most 100 addresses with one account for each, in their
    -- order: the page of a wallet's native positions is made of its rows on this network from
    -- (page - 1) * page_size on. Its items are those that asking for the accounts of these rows one by
    -- one gives, each with the address of its own row; accounts that are missing or no stake give none,
    -- and the total counts all rows of the wallet on this network.
    pub get_native_positions-asked :
        AnswersCalls
        → (network : Cluster) (owner : PublicKey) (page page_size : ℕ) (table : List NativeAccount)
        → let mine =
            keep
              (λ (r : NativeAccount).
                cluster_beq r.cluster network && r.wallet_address == w.to_base58 owner)
              table in
          get_native_positions w get_multiple network epoch owner page page_size table ≡ (do
            addresses ← addresses_of (take page_size (drop ((page - 1) * page_size) mine))
            items ← asked addresses
            ok (record { items = items; total = length mine; page = page; page_size = page_size }))
    unfolding get_native_positions
    get_native_positions-asked promise network owner page page_size table =
        let mine = own_rows w network owner table in
        let answer : List NativePosition → Result StakingError NativeStakePositionsPage = λ items.
          ok (record { items = items; total = length mine; page = page; page_size = page_size }) in
        rw (addresses_lem (page_of w page page_size mine)) (
          bind_congr (addresses_of (page_of w page page_size mine))
            (λ addresses.
              positions_of w epoch addresses
                (get_multiple_accounts_info_chunked get_multiple addresses)
              >>= answer)
            (λ addresses. asked addresses >>= answer)
            (λ addresses. rw (chunked_lem promise addresses, asked_lem addresses)))

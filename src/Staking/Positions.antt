-- ===== src/Staking/Positions.antt =====
-- StakingService.getPosition and getValidators: what a wallet has staked, and who validates. The
-- share of a lamport in SOL is left out.
pub mod Chunks
use solsight_api.Prelude.{
  ℕ, zero, suc, ◌-◌, ◌*◌, String, Option, none, some, List, [], ◌∷◌, ◌++◌, map, take, drop, keep,
  length, ltb, ◌&&◌, ◌==◌, string_eq, Result, ok, err, ◌>>=◌, ◌>>◌, guard, or_throw, or_else,
  if◌then◌else◌,
}
use solsight_api.Cluster.{Cluster, cluster_beq}
use solsight_api.Staking.Types
use solsight_api.Staking.Types.{StakingError, PublicKey, StakePoolCoordinates, NativeAccount}
use solsight_api.Staking.Chain.{Web3, AccountInfo, Rpc}
use solsight_api.Staking.Bytes.{read_u64_le}
use solsight_api.Staking.Accounts.{
  decode_stake_pool_withdraw_state, decode_native_stake_account, decode_approved_validator,
  classify_native_stake_status, NativeStakeStatus,
}
use solsight_api.Staking.Building.{get_configured_network, parse_public_key}
use solsight_api.Staking.Rates.{pool_tokens_to_lamports}

abbrev pub get_multiple_accounts_chunk_size : ℕ
get_multiple_accounts_chunk_size = 100

abbrev pub token_account_amount_offset : ℕ
token_account_amount_offset = 64

abbrev pub default_native_page_size : ℕ
default_native_page_size = 10

-- types/staking.types.ts
pub record LiquidPosition : Type 0 where
  pub pool_token_amount : ℕ
  pub estimated_lamports : ℕ
  pub pool_token_account : String

pub record NativePosition : Type 0 where
  pub address : String
  pub vote_account : String
  pub stake_lamports : ℕ
  pub status : NativeStakeStatus

pub record NativeStakePositionsPage : Type 0 where
  pub items : List NativePosition
  pub total : ℕ
  pub page : ℕ
  pub page_size : ℕ

pub record StakingPosition : Type 0 where
  pub liquid : Option LiquidPosition
  pub native : NativeStakePositionsPage

-- dtos/get-staking-position.dto.ts
pub record GetStakingPositionDto : Type 0 where
  pub wallet : Option String
  pub page : Option ℕ
  pub page_size : Option ℕ

-- The loop that cuts the addresses; each turn takes a chunk off, so that the number of addresses is
-- fuel enough.
unfoldable pub chunks : ℕ → List PublicKey → List (List PublicKey)
chunks zero addresses = []
chunks (suc fuel) [] = []
chunks (suc fuel) (a ∷ rest) =
    take get_multiple_accounts_chunk_size (a ∷ rest)
    ∷ chunks fuel (drop get_multiple_accounts_chunk_size (a ∷ rest))

abbrev pub flatten : List (List (Option AccountInfo)) → List (Option AccountInfo)
flatten [] = []
flatten (xs ∷ rest) = xs ++ flatten rest

-- `get_multiple` is the node's answer to one call.
unfoldable pub get_multiple_accounts_info_chunked :
    (List PublicKey → List (Option AccountInfo)) → List PublicKey → List (Option AccountInfo)
unfolding chunks
get_multiple_accounts_info_chunked get_multiple addresses =
    flatten (map get_multiple (chunks (length addresses) addresses))

module _ (w : Web3) where
  abbrev pub keys_of : List NativeAccount → Result StakingError (List PublicKey)
  keys_of [] = ok []
  keys_of (row ∷ rows) = do
    key ← or_throw (w.new_public_key row.address) Types.invalid_key
    keys ← keys_of rows
    ok (key ∷ keys)

  -- One turn of `infos.forEach`: the item that it adds, if any
  unfoldable pub position_of :
      ℕ → PublicKey → Option AccountInfo → Result StakingError (Option NativePosition)
  unfolding decode_native_stake_account classify_native_stake_status
  position_of epoch address none = ok none
  position_of epoch address (some info) = do
    decoded ← decode_native_stake_account info.data_bytes
    elim decoded [
      | none ↦ ok none
      | some state ↦ ok (
          some (record {
            address = w.to_base58 address;
            vote_account = w.to_base58 state.vote_account;
            stake_lamports = state.stake_lamports;
            status = classify_native_stake_status state epoch;
          }))
    ]

  abbrev pub add_item : Option NativePosition → List NativePosition → List NativePosition
  add_item none items = items
  add_item (some item) items = item ∷ items

  unfoldable pub positions_of :
      ℕ → List PublicKey → List (Option AccountInfo) → Result StakingError (List NativePosition)
  unfolding position_of
  positions_of epoch addresses [] = ok []
  positions_of epoch [] (info ∷ infos) = do
    item ← position_of epoch [] info
    items ← positions_of epoch [] infos
    elim item [ none ↦ ok items | some _ ↦ err Types.type_error ]
  positions_of epoch (a ∷ addresses) (info ∷ infos) = do
    item ← position_of epoch a info
    items ← positions_of epoch addresses infos
    ok (add_item item items)

  abbrev pub own_rows : Cluster → PublicKey → List NativeAccount → List NativeAccount
  own_rows network owner = keep (λ (r : NativeAccount).
      cluster_beq r.cluster network && r.wallet_address == w.to_base58 owner)

  abbrev pub page_of : ℕ → ℕ → List NativeAccount → List NativeAccount
  page_of page page_size rows = take page_size (drop ((page - 1) * page_size) rows)

  -- `table` holds the rows, the latest first.
  unfoldable pub get_native_positions :
      (List PublicKey → List (Option AccountInfo))
      → Cluster
      → ℕ
      → PublicKey
      → ℕ
      → ℕ
      → List NativeAccount
      → Result StakingError NativeStakePositionsPage
  unfolding get_multiple_accounts_info_chunked positions_of
  get_native_positions get_multiple network epoch owner page page_size table = do
    let mine = own_rows network owner table
    addresses ← keys_of (page_of page page_size mine)
    items ← positions_of epoch addresses (get_multiple_accounts_info_chunked get_multiple addresses)
    ok (record { items = items; total = length mine; page = page; page_size = page_size })

  -- The liquid part of `getPosition`
  unfoldable pub get_liquid_position :
      StakePoolCoordinates → Rpc → PublicKey → Result StakingError (Option LiquidPosition)
  unfolding read_u64_le decode_stake_pool_withdraw_state pool_tokens_to_lamports
  get_liquid_position pool rpc owner =
      let user_ata = w.get_associated_token_address pool.lst_mint owner in
      elim (rpc.get_account_info user_ata) [
        | none ↦ ok none
        | some ata_info ↦ elim (rpc.get_account_info pool.stake_pool) [
          | none ↦ ok none
          | some pool_info ↦ do
            amount ← read_u64_le ata_info.data_bytes token_account_amount_offset
            let liquid = do
              state ← decode_stake_pool_withdraw_state pool_info.data_bytes
              ok (
                  some (record {
                    pool_token_amount = amount;
                    estimated_lamports =
                        pool_tokens_to_lamports amount state.total_lamports state.pool_token_supply;
                    pool_token_account = w.to_base58 user_ata;
                  }))
            if ltb 0 amount then liquid else ok none
        ]
      ]

  unfoldable pub validators_of : List AccountInfo → Result StakingError (List String)
  unfolding decode_approved_validator
  validators_of [] = ok []
  validators_of (account ∷ accounts) = do
    vote_account ← decode_approved_validator account.data_bytes
    validators ← validators_of accounts
    ok (w.to_base58 vote_account ∷ validators)

  -- `getValidators`, for the accounts that the node of a network finds
  unfoldable pub get_validators :
      (Cluster → List AccountInfo) → String → Cluster → Result StakingError (List String)
  unfolding get_configured_network validators_of
  get_validators accounts_of configured cluster = do
    network ← get_configured_network configured
    guard (cluster_beq cluster network) Types.wrong_cluster
    validators_of (accounts_of network)

  -- `getPosition`; the pool and the node are those of the network.
  unfoldable pub get_position :
      (Cluster → StakePoolCoordinates)
      → (Cluster → Rpc)
      → (Cluster → List PublicKey → List (Option AccountInfo))
      → String
      → Cluster
      → GetStakingPositionDto
      → List NativeAccount
      → Result StakingError StakingPosition
  unfolding get_configured_network parse_public_key get_liquid_position get_native_positions
  get_position pool_of rpc_of multiple_of configured cluster dto table = do
    network ← get_configured_network configured
    guard (cluster_beq cluster network) Types.wrong_cluster
    owner ← parse_public_key w dto.wallet
    let rpc = rpc_of network
    liquid ← get_liquid_position (pool_of network) rpc owner
    native ←
        get_native_positions (multiple_of network) network rpc.epoch owner (or_else dto.page 1)
          (or_else dto.page_size default_native_page_size) table
    ok (record { liquid = liquid; native = native })

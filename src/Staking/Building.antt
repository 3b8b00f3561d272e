-- ===== src/Staking/Building.antt =====
-- staking/services/staking.service.ts: the instructions of a transaction. The table is that of the
-- native stake accounts. A call that throws leaves it as it is.
pub mod Withdrawal
pub mod Unstake
use solsight_api.Prelude.{
  ℕ, ◌-◌, String, Bool, true, false, ◌&&◌, ◌||◌, Option, none, some, List, [], ◌∷◌, ◌++◌, ltb, leb,
  ◌==◌, string_eq, is_some, Table, Result, ok, err, ◌>>=◌, ◌>>◌, guard, or_throw, if◌then◌else◌,
}
use solsight_api.Prelude.Text.{◌⊕◌, is_blank}
use solsight_api.Cluster.{Cluster, mainnet, devnet, cluster_beq}
use solsight_api.Staking.Types
use solsight_api.Staking.Types.{
  StakingError, PublicKey, StakePoolCoordinates, Addresses, StakingAction, StakingMode,
  BuildStakingTransactionDto, NativeAccount, native_key,
}
use solsight_api.Staking.Chain.{Seed, text, bytes, Web3, AccountInfo, Rpc}
use solsight_api.Staking.Bytes.{u64_le}
use solsight_api.Staking.Accounts.{
  decode_stake_pool_withdraw_state, decode_validator_list, StakePoolWithdrawState,
  decode_native_stake_account, classify_native_stake_status, NativeStakeStatus, inactive,
  NativeStakeAccountState,
}
use solsight_api.Staking.Rates.{lamports_to_pool_tokens}
use solsight_api.Staking.Fallback.{select_fallback_validator}
use solsight_api.Staking.Instructions.{
  TxIx, FallbackAccounts, build_stake_ix, build_unstake_ix, build_stake_native_ix,
  build_unstake_native_ix, build_withdraw_native_ix,
}

-- `getConfiguredNetwork`
unfoldable pub get_configured_network : String → Result StakingError Cluster
get_configured_network network =
    if network == "devnet"
    then ok devnet
    else (if network == "mainnet" || network == "mainnet-beta"
        then ok mainnet
        else err Types.invalid_network)

-- `requirePositiveAmount`
unfoldable pub require_positive_amount : Option ℕ → Result StakingError ℕ
require_positive_amount none = err Types.amount_required
require_positive_amount (some n) = if ltb 0 n then ok n else err Types.amount_required

-- `parsePublicKey`
unfoldable pub parse_public_key : Web3 → Option String → Result StakingError PublicKey
parse_public_key w none = err Types.missing_key
parse_public_key w (some value) =
    if is_blank value
    then err Types.missing_key
    else or_throw (w.new_public_key value) Types.invalid_key

abbrev pub is_inactive : NativeStakeStatus → Bool
is_inactive inactive = true
is_inactive _ = false

-- What the reserve can pay is what it has over its rent; the test is false where it has less.
unfoldable pub needs_fallback : ℕ → ℕ → ℕ → Bool
needs_fallback amount reserve rent = leb rent reserve && ltb (reserve - rent) amount

-- An answer: the instruction, the instruction that makes an account for it by a seed, and the
-- address of the native stake
pub record Built : Type 0 where
  pub created_with_seed : Option String
  pub instruction : TxIx
  pub native_stake_address : Option String

module _ (w : Web3) (sighash : String → String → List ℕ) (a : Addresses)
    (pool : StakePoolCoordinates) (t : Table native_key) (network : Cluster) (rpc : Rpc) where
  -- The three derived addresses
  abbrev pub stake_pool_config : PublicKey
  stake_pool_config =
      w.find_program_address (text "stake_pool_config" ∷ bytes a.authority ∷ []) a.program_id

  abbrev pub approved_validator_of : PublicKey → PublicKey
  approved_validator_of vote_account =
      w.find_program_address
        (text "approved_validator" ∷ bytes stake_pool_config ∷ bytes vote_account ∷ []) a.program_id

  abbrev pub native_stake_of : PublicKey → PublicKey → ℕ → PublicKey
  native_stake_of owner vote_account seed =
      w.find_program_address
        (text "native_stake" ∷ bytes owner ∷ bytes vote_account ∷ bytes (u64_le seed) ∷ [])
        a.program_id

  abbrev pub validator_stake_of : PublicKey → PublicKey
  validator_stake_of vote_account =
      w.find_program_address (bytes vote_account ∷ bytes pool.stake_pool ∷ [])
        pool.stake_pool_program

  -- `save` of a new row
  unfoldable pub insert_account : NativeAccount → t.State → Result StakingError t.State
  insert_account row s =
      if is_some (t.find (native_key row) s) then err Types.duplicate_row else ok (t.save row s)

  unfoldable pub require_owned_native_stake :
      PublicKey → Option String → t.State → Result StakingError NativeAccount
  require_owned_native_stake owner none s = err Types.address_required
  require_owned_native_stake owner (some address) s =
      if is_blank address then err Types.address_required else elim (t.find (network, address) s) [
        | none ↦ err Types.not_owned
        | some row ↦ if row.wallet_address == w.to_base58 owner then ok row else err Types.not_owned
      ]

  abbrev pub user_token_account : PublicKey → PublicKey
  user_token_account owner = w.get_associated_token_address pool.lst_mint owner

  unfoldable pub unstake_from_reserve : PublicKey → ℕ → t.State → Built × t.State
  unfolding build_unstake_ix
  unstake_from_reserve owner tokens s = (
    record {
      created_with_seed = none;
      instruction =
          build_unstake_ix sighash a owner stake_pool_config (user_token_account owner) pool tokens
            none;
      native_stake_address = none;
    },
    s,
  )

  -- The fallback, for a pool with the validator list at `list_key`
  unfoldable pub unstake_from_validator :
      PublicKey → ℕ → StakePoolWithdrawState → t.State → Result StakingError (Built × t.State)
  unfolding build_unstake_ix decode_validator_list select_fallback_validator insert_account
  unstake_from_validator owner tokens state s = do
    info ← or_throw (rpc.get_account_info state.validator_list) Types.no_validator_list
    validators ← decode_validator_list info.data_bytes
    selected ← select_fallback_validator tokens state validators
    let seed = "unstk-" ⊕ rpc.blockhash_start
    let destination = w.create_with_seed owner seed a.stake_program_id
    s' ←
        insert_account
          (record {
            cluster = network;
            wallet_address = w.to_base58 owner;
            vote_account = w.to_base58 selected.vote_account_address;
            seed = seed;
            address = w.to_base58 destination;
          })
          s
    ok (
      record {
        created_with_seed = some seed;
        instruction =
            build_unstake_ix sighash a owner stake_pool_config (user_token_account owner) pool
              tokens
              (some (record {
                validator_list = state.validator_list;
                validator_stake = validator_stake_of selected.vote_account_address;
                destination_stake = destination;
              }));
        native_stake_address = some (w.to_base58 destination);
      },
      s',
    )

  unfoldable pub build_liquid_unstake :
      PublicKey → BuildStakingTransactionDto → t.State → Result StakingError (Built × t.State)
  unfolding require_positive_amount decode_stake_pool_withdraw_state lamports_to_pool_tokens
      unstake_from_reserve unstake_from_validator needs_fallback
  build_liquid_unstake owner dto s = do
    amount ← require_positive_amount dto.amount_lamports
    pool_info ← or_throw (rpc.get_account_info pool.stake_pool) Types.no_stake_pool
    reserve_info ← or_throw (rpc.get_account_info pool.reserve_stake) Types.no_reserve
    state ← decode_stake_pool_withdraw_state pool_info.data_bytes
    let tokens = lamports_to_pool_tokens amount state.total_lamports state.pool_token_supply
    guard (ltb 0 tokens) Types.amount_too_small
        >> (if needs_fallback amount reserve_info.lamports rpc.rent_exempt_lamports
            then unstake_from_validator owner tokens state s
            else ok (unstake_from_reserve owner tokens s))

  unfoldable pub build_liquid_instructions :
      PublicKey → BuildStakingTransactionDto → t.State → Result StakingError (Built × t.State)
  unfolding build_stake_ix require_positive_amount build_liquid_unstake
  build_liquid_instructions owner dto s = elim dto.action [
    | Types.stake ↦ do
      amount ← require_positive_amount dto.amount_lamports
      ok (
        record {
          created_with_seed = none;
          instruction =
              build_stake_ix sighash a owner stake_pool_config (user_token_account owner) pool
                amount;
          native_stake_address = none;
        },
        s,
      )
    | Types.unstake ↦ build_liquid_unstake owner dto s
    | Types.withdraw ↦ err Types.unsupported_action
  ]

  unfoldable pub build_native_withdrawal :
      PublicKey → BuildStakingTransactionDto → t.State → Result StakingError (Built × t.State)
  unfolding require_positive_amount require_owned_native_stake build_withdraw_native_ix
      decode_native_stake_account classify_native_stake_status
  build_native_withdrawal owner dto s = do
    row ← require_owned_native_stake owner dto.native_stake_address s
    native_stake ← or_throw (w.new_public_key row.address) Types.invalid_key
    amount ← require_positive_amount dto.amount_lamports
    info ← or_throw (rpc.get_account_info native_stake) Types.no_account
    decoded ← decode_native_stake_account info.data_bytes
    state ← or_throw decoded Types.not_withdrawable
    guard (is_inactive (classify_native_stake_status state rpc.epoch)) Types.not_deactivated
        >> ok (
          record {
            created_with_seed = none;
            instruction = build_withdraw_native_ix sighash a owner native_stake amount;
            native_stake_address = none;
          },
          s,
        )

  -- `seed` is made of the clock and of a random number.
  unfoldable pub build_native_instruction :
      (ℕ → String)
      → ℕ
      → PublicKey
      → BuildStakingTransactionDto
      → t.State
      → Result StakingError (Built × t.State)
  unfolding require_positive_amount parse_public_key build_stake_native_ix insert_account
      require_owned_native_stake build_unstake_native_ix build_native_withdrawal
  build_native_instruction seed_text seed owner dto s = elim dto.action [
    | Types.stake ↦ do
      amount ← require_positive_amount dto.amount_lamports
      vote_account ← parse_public_key w dto.vote_account
      approved ←
          or_throw (rpc.get_account_info (approved_validator_of vote_account)) Types.not_approved
      let native_stake = native_stake_of owner vote_account seed
      s' ←
          insert_account
            (record {
              cluster = network;
              wallet_address = w.to_base58 owner;
              vote_account = w.to_base58 vote_account;
              seed = seed_text seed;
              address = w.to_base58 native_stake;
            })
            s
      ok (
        record {
          created_with_seed = none;
          instruction =
              build_stake_native_ix sighash a owner stake_pool_config
                (approved_validator_of vote_account) vote_account native_stake seed amount;
          native_stake_address = some (w.to_base58 native_stake);
        },
        s',
      )
    | Types.unstake ↦ do
      row ← require_owned_native_stake owner dto.native_stake_address s
      native_stake ← or_throw (w.new_public_key row.address) Types.invalid_key
      ok (
        record {
          created_with_seed = none;
          instruction = build_unstake_native_ix sighash a owner native_stake;
          native_stake_address = none;
        },
        s,
      )
    | Types.withdraw ↦ build_native_withdrawal owner dto s
  ]

-- `buildTransaction` up to the instructions, for the configured network; web3.js compiles and
-- serializes the rest. `getPool` and the RPC node are those of the network.
unfoldable pub build_transaction :
    Web3
    → (String → String → List ℕ)
    → Addresses
    → (Cluster → StakePoolCoordinates)
    → (t : Table native_key) → (Cluster → Rpc)
    → (ℕ → String)
    → ℕ
    → String
    → Cluster
    → BuildStakingTransactionDto
    → t.State
    → Result StakingError (Built × t.State)
unfolding get_configured_network parse_public_key build_liquid_instructions build_native_instruction
build_transaction w sighash a pool_of t rpc_of seed_text seed configured cluster dto s = do
  network ← get_configured_network configured
  let pool = pool_of network
  let rpc = rpc_of network
  guard (cluster_beq cluster network) Types.wrong_cluster
  owner ← parse_public_key w dto.wallet
  elim dto.mode [
    | Types.liquid ↦ build_liquid_instructions w sighash a pool t network rpc owner dto s
    | Types.native ↦
        build_native_instruction w sighash a pool t network rpc seed_text seed owner dto s
  ]

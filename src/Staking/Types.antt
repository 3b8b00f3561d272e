-- ===== src/Staking/Types.antt =====
-- staking/types and staking/entities: what the staking service reads, keeps and answers.
use solsight_api.Prelude.{ℕ, String, Option, List}
use solsight_api.Cluster.{Cluster}

-- The 32 bytes of a key
abbrev pub PublicKey : Type 0
PublicKey = List ℕ

-- What the service throws; `range_error` is that of a read past the end of an account's data.
pub data StakingError : Type 0 where
  range_error : StakingError
  -- `toBase58` of a key that is not there
  type_error : StakingError
  -- `BadRequestException`
  wrong_cluster missing_key invalid_key amount_required amount_too_small : StakingError
  no_active_validator not_approved address_required not_withdrawable : StakingError
  not_deactivated unsupported_action invalid_network : StakingError
  -- `NotFoundException`
  no_stake_pool no_reserve no_validator_list not_owned no_account : StakingError
  -- the unique index of the table
  duplicate_row : StakingError

pub data StakeActionType : Type 0 where
  stake_liquid unstake_liquid stake_native unstake_native withdraw_native : StakeActionType

-- config/pool-config.ts
pub record StakePoolCoordinates : Type 0 where
  pub stake_pool_program : PublicKey
  pub stake_pool : PublicKey
  pub lst_mint : PublicKey
  pub withdraw_authority : PublicKey
  pub reserve_stake : PublicKey
  pub manager_fee_account : PublicKey

-- The addresses of the staking program and of the chain's own programs and variables
pub record Addresses : Type 0 where
  pub program_id : PublicKey
  pub authority : PublicKey
  pub token_program_id : PublicKey
  pub associated_token_program_id : PublicKey
  pub system_program_id : PublicKey
  pub clock_sysvar : PublicKey
  pub stake_history_sysvar : PublicKey
  pub rent_sysvar : PublicKey
  pub stake_config_id : PublicKey
  pub stake_program_id : PublicKey

pub data StakingAction : Type 0 where
  stake unstake withdraw : StakingAction

pub data StakingMode : Type 0 where
  liquid native : StakingMode

-- dtos/build-staking-transaction.dto.ts; the amount is a text of digits, here its number.
pub record BuildStakingTransactionDto : Type 0 where
  pub mode : StakingMode
  pub action : StakingAction
  pub wallet : Option String
  pub amount_lamports : Option ℕ
  pub vote_account : Option String
  pub native_stake_address : Option String

-- entities/staking-native-account.entity.ts, unique by network and address
pub record NativeAccount : Type 0 where
  pub cluster : Cluster
  pub wallet_address : String
  pub vote_account : String
  pub seed : String
  pub address : String

abbrev pub native_key : NativeAccount → Cluster × String
native_key a = (a.cluster, a.address)

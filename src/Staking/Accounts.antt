-- ===== src/Staking/Accounts.antt =====
-- staking-chain.utils.ts: the accounts that are decoded, and the status of a native stake.
use solsight_api.Prelude.{
  ℕ, zero, suc, ◌+◌, ◌*◌, ◌-◌, ◌^◌, Bool, false, Option, none, some, List, [], ◌∷◌, drop, head_of,
  ltb, nat_beq, Result, ok, ◌>>=◌, if◌then◌else◌,
}
use solsight_api.Staking.Types.{StakingError, PublicKey}
use solsight_api.Staking.Bytes.{get_uint32, read_u64_le, pubkey_at}

-- `data[i]`, `none` for `undefined`
abbrev pub byte_at : List ℕ → ℕ → Option ℕ
byte_at bytes i = head_of (drop i bytes)

-- `data[i] === n`
abbrev pub is_byte : ℕ → Option ℕ → Bool
is_byte n none = false
is_byte n (some b) = nat_beq b n

pub record StakePoolConfigState : Type 0 where
  pub authority : PublicKey
  pub stake_pool : PublicKey
  pub stake_pool_program : PublicKey
  pub pool_mint : PublicKey
  pub withdraw_authority : PublicKey
  pub reserve_stake : PublicKey
  pub manager_fee_account : PublicKey
  pub is_paused : Bool

unfoldable pub decode_stake_pool_config : List ℕ → Result StakingError StakePoolConfigState
unfolding pubkey_at
decode_stake_pool_config bytes = do
  authority ← pubkey_at bytes 8
  stake_pool ← pubkey_at bytes 40
  stake_pool_program ← pubkey_at bytes 72
  pool_mint ← pubkey_at bytes 104
  withdraw_authority ← pubkey_at bytes 136
  reserve_stake ← pubkey_at bytes 168
  manager_fee_account ← pubkey_at bytes 200
  ok (record {
    authority = authority;
    stake_pool = stake_pool;
    stake_pool_program = stake_pool_program;
    pool_mint = pool_mint;
    withdraw_authority = withdraw_authority;
    reserve_stake = reserve_stake;
    manager_fee_account = manager_fee_account;
    is_paused = is_byte 1 (byte_at bytes 232);
  })

unfoldable pub decode_approved_validator : List ℕ → Result StakingError PublicKey
unfolding pubkey_at
decode_approved_validator bytes = pubkey_at bytes 8

pub record StakePoolWithdrawState : Type 0 where
  pub validator_list : PublicKey
  pub total_lamports : ℕ
  pub pool_token_supply : ℕ

unfoldable pub decode_stake_pool_withdraw_state :
    List ℕ → Result StakingError StakePoolWithdrawState
unfolding pubkey_at read_u64_le
decode_stake_pool_withdraw_state bytes = do
  validator_list ← pubkey_at bytes 98
  total_lamports ← read_u64_le bytes 258
  pool_token_supply ← read_u64_le bytes 266
  ok (record {
    validator_list = validator_list;
    total_lamports = total_lamports;
    pool_token_supply = pool_token_supply;
  })

-- The status is `undefined` only where the reads behind it throw.
pub record ValidatorListEntryState : Type 0 where
  pub status : Option ℕ
  pub active_stake_lamports : ℕ
  pub vote_account_address : PublicKey

unfoldable pub decode_validator : List ℕ → ℕ → Result StakingError ValidatorListEntryState
unfolding read_u64_le pubkey_at
decode_validator bytes offset = do
  active_stake_lamports ← read_u64_le bytes (offset + 0)
  vote_account_address ← pubkey_at bytes (offset + 41)
  ok (record {
    status = byte_at bytes (offset + 40);
    active_stake_lamports = active_stake_lamports;
    vote_account_address = vote_account_address;
  })

-- The loop from `index` on, for `left` entries
unfoldable pub decode_validators :
    List ℕ → ℕ → ℕ → Result StakingError (List ValidatorListEntryState)
unfolding decode_validator
decode_validators bytes index zero = ok []
decode_validators bytes index (suc left) = do
  validator ← decode_validator bytes (9 + index * 73)
  validators ← decode_validators bytes (index + 1) left
  ok (validator ∷ validators)

unfoldable pub decode_validator_list : List ℕ → Result StakingError (List ValidatorListEntryState)
unfolding get_uint32 decode_validators
decode_validator_list bytes = do count ← get_uint32 bytes 5; decode_validators bytes 0 count

pub data NativeStakeStatus : Type 0 where
  activating active deactivating inactive : NativeStakeStatus

pub record NativeStakeAccountState : Type 0 where
  pub staker : PublicKey
  pub withdrawer : PublicKey
  pub vote_account : PublicKey
  pub stake_lamports : ℕ
  pub activation_epoch : ℕ
  pub deactivation_epoch : ℕ

-- `none` stands for `null`: the account is in another state.
unfoldable pub decode_native_stake_account :
    List ℕ → Result StakingError (Option NativeStakeAccountState)
unfolding get_uint32 pubkey_at read_u64_le
decode_native_stake_account bytes = do
  tag ← get_uint32 bytes 0
  let state = do
    staker ← pubkey_at bytes 12
    withdrawer ← pubkey_at bytes 44
    vote_account ← pubkey_at bytes 124
    stake_lamports ← read_u64_le bytes 156
    activation_epoch ← read_u64_le bytes 164
    deactivation_epoch ← read_u64_le bytes 172
    ok (
        some (record {
          staker = staker;
          withdrawer = withdrawer;
          vote_account = vote_account;
          stake_lamports = stake_lamports;
          activation_epoch = activation_epoch;
          deactivation_epoch = deactivation_epoch;
        }))
  if nat_beq tag 2 then state else ok none

abbrev pub max_u64 : ℕ
max_u64 = 2 ^ 64 - 1

unfoldable pub classify_native_stake_status : NativeStakeAccountState → ℕ → NativeStakeStatus
classify_native_stake_status state current_epoch =
    if nat_beq state.deactivation_epoch max_u64
    then (if ltb state.activation_epoch current_epoch then active else activating)
    else (if ltb state.deactivation_epoch current_epoch then inactive else deactivating)

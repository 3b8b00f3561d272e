-- ===== src/Staking/Building/Withdrawal.antt =====
-- StakingService.buildNativeInstruction: what must hold before SOL is withdrawn.
use solsight_api.Prelude.{
  ℕ, ltb, ◌<◌, String, Option, none, some, List, ◌≡◌, ◌≢◌, ap, Table, ok, ok_inj, Bool-cases, inl,
  inr, string_eq,
}
use solsight_api.Cluster.{Cluster}
use solsight_api.Staking.Types
use solsight_api.Staking.Types.{
  StakingError, PublicKey, StakePoolCoordinates, Addresses, BuildStakingTransactionDto,
  NativeAccount, native_key,
}
use solsight_api.Staking.Chain.{Web3, AccountInfo, Rpc}
use solsight_api.Staking.Accounts.{NativeStakeAccountState, max_u64}
use solsight_api.Staking.Bytes.{get_uint32, read_u64_le}
use solsight_api.Staking.Instructions.{build_withdraw_native_ix}
use solsight_api.Staking.Building.{Built, require_positive_amount}

abbrev deactivation_of : NativeStakeAccountState → Option NativeStakeAccountState → ℕ
deactivation_of default none = default.deactivation_epoch
deactivation_of default (some state) = state.deactivation_epoch

pub require_positive_amount_ok :
    (o : Option ℕ) (amount : ℕ) → require_positive_amount o ≡ ok amount → o ≡ some amount
unfolding require_positive_amount
require_positive_amount_ok none amount h = absurd cc
require_positive_amount_ok (some n) amount h = elim (Bool-cases (ltb 0 n)) [
  | inl positive ↦ ap (λ (k : ℕ). some k) (ok_inj (rw positive at h))
  | inr not_positive ↦ absurd (let q = rw not_positive at h in cc)
]

module _ (w : Web3) (sighash : String → String → List ℕ) (a : Addresses)
    (pool : StakePoolCoordinates) (t : Table native_key) (network : Cluster) (rpc : Rpc) where
  -- When it is in order to withdraw from the native stake at an address of the table, and what is
  -- built for it
  pub record CanWithdraw (owner : PublicKey) (dto : BuildStakingTransactionDto) (s : t.State)
      (built : Built) : Type 0 where
    pub named : String
    pub asked : dto.native_stake_address ≡ some named
    pub row : NativeAccount
    pub stored : t.find (network, named) s ≡ some row
    pub own : row.wallet_address ≡ w.to_base58 owner
    pub key : PublicKey
    pub key_of : w.new_public_key row.address ≡ some key
    pub info : AccountInfo
    pub on_chain : rpc.get_account_info key ≡ some info
    pub is_stake : get_uint32 info.data_bytes 0 ≡ ok 2
    pub deactivation : ℕ
    pub read : read_u64_le info.data_bytes 172 ≡ ok deactivation
    pub over : deactivation < rpc.epoch
    pub told : deactivation ≢ max_u64
    pub amount : ℕ
    pub asked_amount : dto.amount_lamports ≡ some amount
    pub withdraws : built.instruction ≡ build_withdraw_native_ix sighash a owner key amount

-- ===== src/Staking/Instructions.antt =====
-- staking-chain.utils.ts: the instructions of the staking program and what a transaction of the past
-- tells about them. Parameters: `sighash` is the hash of the namespace and the name of an
-- instruction, of which 8 bytes are kept, and `sol_text` writes lamports as SOL, with `toFixed(6)`.
pub mod Parsing
use solsight_api.Prelude.{
  ℕ, String, Bool, true, false, not, ◌&&◌, Option, none, some, List, [], ◌∷◌, ◌++◌, leb, ltb,
  length, Result, ok, err, if◌then◌else◌,
}
use solsight_api.Prelude.Text.{includes_text}
use solsight_api.Staking.Types.{
  StakingError, PublicKey, StakePoolCoordinates, Addresses, StakeActionType, stake_liquid,
  unstake_liquid, stake_native, unstake_native, withdraw_native,
}
use solsight_api.Staking.Bytes.{read_u64_le, u64_le, concat}

pub record AccountMeta : Type 0 where
  pub pubkey : PublicKey
  pub is_signer : Bool
  pub is_writable : Bool

pub record TxIx : Type 0 where
  pub program_id : PublicKey
  pub keys : List AccountMeta
  pub data_bytes : List ℕ

abbrev account : Bool → Bool → PublicKey → AccountMeta
account is_signer is_writable key = record {
  pubkey = key;
  is_signer = is_signer;
  is_writable = is_writable;
}

abbrev pub read_only : PublicKey → AccountMeta
read_only key = account false false key

abbrev pub writable : PublicKey → AccountMeta
writable key = account false true key

abbrev pub payer : PublicKey → AccountMeta
payer key = account true true key

-- The names that `IX_DISC` hashes
abbrev pub instruction_name : StakeActionType → String
instruction_name stake_liquid = "stake"
instruction_name unstake_liquid = "unstake"
instruction_name stake_native = "stake_native"
instruction_name unstake_native = "unstake_native"
instruction_name withdraw_native = "withdraw_native"

-- The accounts of the fallback of an unstake: `validatorList`, `validatorStake`, `destinationStake`
pub record FallbackAccounts : Type 0 where
  pub validator_list : PublicKey
  pub validator_stake : PublicKey
  pub destination_stake : PublicKey

abbrev fallback_keys : Option FallbackAccounts → List AccountMeta
fallback_keys none = []
fallback_keys (some f) =
    writable f.validator_list ∷ writable f.validator_stake ∷ writable f.destination_stake ∷ []

module _ (sighash : String → String → List ℕ) (a : Addresses) where
  abbrev pub ix_disc : StakeActionType → List ℕ
  ix_disc action = sighash "global" (instruction_name action)

  unfoldable pub build_stake_ix :
      PublicKey → PublicKey → PublicKey → StakePoolCoordinates → ℕ → TxIx
  unfolding concat u64_le
  build_stake_ix owner stake_pool_config user_pool_token_account pool sol_amount_lamports = record {
    program_id = a.program_id;
    keys =
        payer owner
        ∷ read_only stake_pool_config
        ∷ writable user_pool_token_account
        ∷ writable pool.stake_pool
        ∷ read_only pool.withdraw_authority
        ∷ writable pool.reserve_stake
        ∷ writable pool.manager_fee_account
        ∷ writable pool.lst_mint
        ∷ read_only pool.stake_pool_program
        ∷ read_only a.token_program_id
        ∷ read_only a.associated_token_program_id
        ∷ read_only a.system_program_id
        ∷ [];
    data_bytes = concat (ix_disc stake_liquid ∷ u64_le sol_amount_lamports ∷ []);
  }

  unfoldable pub build_unstake_ix :
      PublicKey → PublicKey → PublicKey → StakePoolCoordinates → ℕ → Option FallbackAccounts → TxIx
  unfolding concat u64_le
  build_unstake_ix owner stake_pool_config user_pool_token_account pool tokens fallback = record {
    program_id = a.program_id;
    keys =
        (payer owner
          ∷ read_only stake_pool_config
          ∷ writable user_pool_token_account
          ∷ writable pool.stake_pool
          ∷ read_only pool.withdraw_authority
          ∷ writable pool.reserve_stake
          ∷ writable pool.manager_fee_account
          ∷ writable pool.lst_mint
          ∷ read_only a.clock_sysvar
          ∷ read_only a.stake_history_sysvar
          ∷ read_only a.stake_program_id
          ∷ read_only pool.stake_pool_program
          ∷ read_only a.token_program_id
          ∷ [])
        ++ fallback_keys fallback;
    data_bytes = concat (ix_disc unstake_liquid ∷ u64_le tokens ∷ []);
  }

  unfoldable pub build_stake_native_ix :
      PublicKey → PublicKey → PublicKey → PublicKey → PublicKey → ℕ → ℕ → TxIx
  unfolding concat u64_le
  build_stake_native_ix owner stake_pool_config approved vote_account native_stake seed lamports =
      record {
        program_id = a.program_id;
        keys =
            payer owner
            ∷ read_only stake_pool_config
            ∷ read_only approved
            ∷ read_only vote_account
            ∷ writable native_stake
            ∷ read_only a.clock_sysvar
            ∷ read_only a.stake_history_sysvar
            ∷ read_only a.stake_config_id
            ∷ read_only a.stake_program_id
            ∷ read_only a.rent_sysvar
            ∷ read_only a.system_program_id
            ∷ [];
        data_bytes = concat (ix_disc stake_native ∷ u64_le seed ∷ u64_le lamports ∷ []);
      }

  unfoldable pub build_unstake_native_ix : PublicKey → PublicKey → TxIx
  build_unstake_native_ix owner native_stake = record {
    program_id = a.program_id;
    keys =
        account true false owner
        ∷ writable native_stake
        ∷ read_only a.clock_sysvar
        ∷ read_only a.stake_program_id
        ∷ [];
    data_bytes = ix_disc unstake_native;
  }

  unfoldable pub build_withdraw_native_ix : PublicKey → PublicKey → ℕ → TxIx
  unfolding concat u64_le
  build_withdraw_native_ix owner native_stake amount_lamports = record {
    program_id = a.program_id;
    keys =
        payer owner
        ∷ writable native_stake
        ∷ read_only a.clock_sysvar
        ∷ read_only a.stake_history_sysvar
        ∷ read_only a.stake_program_id
        ∷ [];
    data_bytes = concat (ix_disc withdraw_native ∷ u64_le amount_lamports ∷ []);
  }

-- One turn of the loop of `classifyStakeAction`
unfoldable pub action_of_log : String → Option StakeActionType
action_of_log log =
    if includes_text "Instruction: Stake" log && not (includes_text "StakeNative" log)
    then some stake_liquid
    else (if includes_text "Instruction: Unstake" log && not (includes_text "UnstakeNative" log)
        then some unstake_liquid
        else (if includes_text "Instruction: StakeNative" log
            then some stake_native
            else (if includes_text "Instruction: UnstakeNative" log
                then some unstake_native
                else (if includes_text "Instruction: WithdrawNative" log
                    then some withdraw_native
                    else none))))

unfoldable pub classify_stake_action : List String → Option StakeActionType
classify_stake_action [] = none
classify_stake_action (log ∷ logs) = elim (action_of_log log) [
  | some action ↦ some action
  | none ↦ classify_stake_action logs
]

abbrev pub no_sol : String
no_sol = "0.000000"

module _ (sol_text : ℕ → String) where
  -- `sol > 0 ? sol.toFixed(6) : "0.000000"`
  abbrev pub amount_text : ℕ → String
  amount_text lamports = if ltb 0 lamports then sol_text lamports else no_sol

  -- what is caught is answered with no amount
  abbrev pub read_text : Result StakingError ℕ → String
  read_text (ok lamports) = amount_text lamports
  read_text (err e) = no_sol

  unfoldable pub parse_stake_amount_from_instruction_data : List ℕ → StakeActionType → String
  unfolding read_u64_le
  parse_stake_amount_from_instruction_data bytes stake_liquid =
      if leb 16 (length bytes) then read_text (read_u64_le bytes 8) else no_sol
  parse_stake_amount_from_instruction_data bytes withdraw_native =
      if leb 16 (length bytes) then read_text (read_u64_le bytes 8) else no_sol
  parse_stake_amount_from_instruction_data bytes stake_native =
      if leb 24 (length bytes) then read_text (read_u64_le bytes 16) else no_sol
  parse_stake_amount_from_instruction_data bytes unstake_liquid = no_sol
  parse_stake_amount_from_instruction_data bytes unstake_native = no_sol

-- ===== src/Staking/Tests.antt =====
-- staking at concrete inputs, over keys of one byte and accounts of zeros but for what is read.
use solsight_api.Prelude.{
  false, zero, suc, ℕ, String, Bool, Option, none, some, List, [], ◌∷◌, ◌++◌, ◌≡◌, ◌<◌, ◌≤◌, ◌+◌,
  ◌*◌, refl, map, arith, ok, row_table, Table, string_eq, pair_eq, if◌then◌else◌, nat_beq,
}
use solsight_api.Prelude.Text.{includes_text}
use solsight_api.Cluster.{devnet, cluster_eq}
use solsight_api.Staking.Types
use solsight_api.Staking.Types.{
  PublicKey, StakePoolCoordinates, Addresses, BuildStakingTransactionDto, NativeAccount, native_key,
}
use solsight_api.Staking.Rates.{pool_tokens_to_lamports, lamports_to_pool_tokens, required_lamports}
use solsight_api.Staking.Chain.{Web3, AccountInfo, Rpc}
use solsight_api.Staking.Accounts.{
  ValidatorListEntryState, StakePoolWithdrawState, decode_native_stake_account, deactivating,
  classify_native_stake_status,
}
use solsight_api.Staking.Fallback.{select_fallback_validator}
use solsight_api.Staking.Fallback.Selection.{Chooses, select_fallback_validator-Chooses}
use solsight_api.Staking.Building.{Built, build_liquid_instructions, build_liquid_unstake}
use solsight_api.Staking.Building.Unstake.{PaidByReserve, build_liquid_instructions-PaidByReserve}
use solsight_api.Staking.Positions.{get_native_positions, NativePosition}
use solsight_api.Staking.Positions.Chunks.{asked, get_native_positions-asked}
use solsight_api.Staking.Rates.Bounds.{lamports_to_pool_tokens_bounds}
use solsight_api.Staking.Instructions.{
  build_stake_ix, build_stake_native_ix, build_withdraw_native_ix, build_unstake_ix,
  parse_stake_amount_from_instruction_data, classify_stake_action, action_of_log,
}
use solsight_api.Staking.Instructions.Parsing.{parse-build, classify_stake_action-start_log}

abbrev key_is : ℕ → List ℕ → Bool
key_is n [] = false
key_is n (b ∷ rest) = nat_beq b n

abbrev zeros : ℕ → List ℕ
zeros zero = []
zeros (suc n) = 0 ∷ zeros n

abbrev addresses : Addresses
addresses = record {
  program_id = 1 ∷ [];
  authority = 2 ∷ [];
  token_program_id = [];
  associated_token_program_id = [];
  system_program_id = [];
  clock_sysvar = [];
  stake_history_sysvar = [];
  rent_sysvar = [];
  stake_config_id = [];
  stake_program_id = [];
}

abbrev pool : StakePoolCoordinates
pool = record {
  stake_pool_program = 3 ∷ [];
  stake_pool = 4 ∷ [];
  lst_mint = 5 ∷ [];
  withdraw_authority = [];
  reserve_stake = 6 ∷ [];
  manager_fee_account = [];
}

abbrev hash : String → String → List ℕ
hash namespace name = zeros 8

abbrev sol_text : ℕ → String
sol_text lamports = if nat_beq lamports 3 then "0.000000003" else "many"

lamports_to_pool_tokens_bounds_example :
    let tokens = lamports_to_pool_tokens 10 7 5 in
    let worth = pool_tokens_to_lamports tokens 7 5 in
    (worth ≤ 10) × (10 * 5 < worth * 5 + 5 + 7) × (required_lamports tokens 7 5 ≤ 10)
lamports_to_pool_tokens_bounds_example =
    lamports_to_pool_tokens_bounds 10 7 5 (omega arith) (omega arith)

-- The amount wraps at 2 ^ 64.
parse-build_example :
    (parse_stake_amount_from_instruction_data sol_text
        (build_stake_ix hash addresses [] [] [] pool 18446744073709551619).data_bytes
        Types.stake_liquid
      ≡ "0.000000003")
    × (parse_stake_amount_from_instruction_data sol_text
          (build_stake_native_ix hash addresses [] [] [] [] [] 9 18446744073709551619).data_bytes
          Types.stake_native
        ≡ "0.000000003")
    × (parse_stake_amount_from_instruction_data sol_text
          (build_withdraw_native_ix hash addresses [] [] 18446744073709551619).data_bytes
          Types.withdraw_native
        ≡ "0.000000003")
parse-build_example =
    parse-build sol_text hash addresses [] [] [] [] [] [] pool 9 18446744073709551619 (λ name. refl)

unstake_log_after_others :
    classify_stake_action ("Program log: hello" ∷ "Program log: Instruction: UnstakeNative" ∷ [])
    ≡ some Types.unstake_native
unfolding action_of_log includes_text
unstake_log_after_others =
    classify_stake_action-start_log Types.unstake_native ("Program log: hello" ∷ []) [] (refl, tt)

abbrev validators : List ValidatorListEntryState
validators =
    record { status = some 0; active_stake_lamports = 5; vote_account_address = 7 ∷ [] }
    ∷ record { status = some 0; active_stake_lamports = 9; vote_account_address = 8 ∷ [] }
    ∷ record { status = some 1; active_stake_lamports = 20; vote_account_address = 9 ∷ [] }
    ∷ []

abbrev withdraw_state : StakePoolWithdrawState
withdraw_state = record { validator_list = []; total_lamports = 2; pool_token_supply = 1 }

select_fallback_validator-Chooses_example :
    Chooses validators (select_fallback_validator 2 withdraw_state validators)
select_fallback_validator-Chooses_example =
    select_fallback_validator-Chooses 2 withdraw_state validators

abbrev account_info : AccountInfo
account_info = record { lamports = 0; data_bytes = 2 ∷ zeros 180 }

abbrev web3 : Web3
web3 = record {
  new_public_key = λ s. some (4 ∷ []);
  to_base58 = λ key. "w";
  find_program_address = λ seeds program. [];
  get_associated_token_address = λ mint owner. [];
  create_with_seed = λ owner seed program. [];
}

-- A stake of 0 that was told to deactivate in epoch 0, and a pool of one lamport and one token
abbrev stake_account : List ℕ
stake_account = 2 ∷ zeros 180

abbrev pool_account : List ℕ
pool_account = zeros 258 ++ (1 ∷ zeros 7) ++ (1 ∷ zeros 7)

abbrev info_of : List ℕ → List ℕ → Option AccountInfo
info_of account key =
    if key_is 4 key
    then some (record { lamports = 0; data_bytes = account })
    else (if key_is 6 key then some (record { lamports = 30; data_bytes = [] }) else none)

abbrev rpc_of : List ℕ → Rpc
rpc_of account = record {
  get_account_info = info_of account;
  rent_exempt_lamports = 10;
  epoch = 1;
  blockhash_start = "hash";
}

abbrev rpc : Rpc
rpc = rpc_of stake_account

abbrev pool_rpc : Rpc
pool_rpc = rpc_of pool_account

abbrev tracked : NativeAccount
tracked = record {
  cluster = devnet;
  wallet_address = "w";
  vote_account = "v";
  seed = "1";
  address = "n";
}

abbrev withdrawal : BuildStakingTransactionDto
withdrawal = record {
  mode = Types.native;
  action = Types.withdraw;
  wallet = some "w";
  amount_lamports = some 3;
  vote_account = none;
  native_stake_address = some "n";
}

abbrev table : Table native_key
table = row_table native_key

abbrev rows : table.State
rows = (tracked ∷ [], (refl, tt))

abbrev no_rows : table.State
no_rows = ([], tt)

abbrev withdrawn : Built
withdrawn = record {
  created_with_seed = none;
  instruction = build_withdraw_native_ix hash addresses [] (4 ∷ []) 3;
  native_stake_address = none;
}

abbrev paid : Built
paid = record {
  created_with_seed = none;
  instruction = build_unstake_ix hash addresses [] [] [] pool 3 none;
  native_stake_address = none;
}

build_liquid_instructions-PaidByReserve_example :
    PaidByReserve web3 hash addresses pool table devnet pool_rpc []
      (some 3)
      paid
      (record { lamports = 30; data_bytes = [] })
    × (no_rows ≡ no_rows)
unfolding build_liquid_instructions build_liquid_unstake
build_liquid_instructions-PaidByReserve_example =
    build_liquid_instructions-PaidByReserve web3 hash addresses pool table devnet pool_rpc []
      (record withdrawal { mode = Types.liquid; action = Types.unstake }) no_rows no_rows paid
      (record { lamports = 30; data_bytes = [] }) refl refl (omega arith) refl refl

abbrev account_row : String → NativeAccount
account_row wallet = record {
  cluster = devnet;
  wallet_address = wallet;
  vote_account = "v";
  seed = "1";
  address = "w";
}

abbrev position : NativePosition
position = record { address = "w"; vote_account = "w"; stake_lamports = 0; status = deactivating }

get_native_positions-asked_example :
    get_native_positions web3
      (map (λ key. some account_info))
      devnet
      0
      []
      1
      10
      (account_row "w" ∷ account_row "u" ∷ account_row "w" ∷ [])
    ≡ ok (record { items = position ∷ position ∷ []; total = 2; page = 1; page_size = 10 })
unfolding asked decode_native_stake_account classify_native_stake_status
get_native_positions-asked_example =
    get_native_positions-asked (λ key. some account_info) (map (λ key. some account_info)) web3 0
      (λ keys few. refl) devnet [] 1 10 (account_row "w" ∷ account_row "u" ∷ account_row "w" ∷ [])

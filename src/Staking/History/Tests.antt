-- ===== src/Staking/History/Tests.antt =====
-- The history of staking at concrete inputs.
use solsight_api.Prelude.{
  false, zero, suc, ℕ, String, Bool, none, some, List, [], ◌∷◌, ◌++◌, ◌≡◌, refl, arith, string_eq,
  ◌==◌, ltb, pair_eq, if◌then◌else◌, nat_beq,
}
use solsight_api.Prelude.Text.{◌⊕◌}
use solsight_api.Cluster.{devnet, cluster_eq}
use solsight_api.Staking.Types
use solsight_api.Staking.Types.{
  PublicKey, StakePoolCoordinates, Addresses, BuildStakingTransactionDto, NativeAccount, native_key,
}
use solsight_api.Staking.Amounts.{CompiledMessage, TransactionMeta, parse_amount_from_transaction}
use solsight_api.Staking.History.{SyncState, HistoryReader, StakingHistory}
use solsight_api.Staking.History.Page.{history_page}
use solsight_api.Staking.History.Ordered.{IsOrder}
use solsight_api.Staking.History.Paging.{history_page-next}
use solsight_api.Staking.History.Skipped.{chain_of}
use solsight_api.Staking.Instructions.Parsing.{start_log}

abbrev zeros : ℕ → List ℕ
zeros zero = []
zeros (suc n) = 0 ∷ zeros n

abbrev sol_text : ℕ → String
sol_text lamports = if nat_beq lamports 3 then "0.000000003" else "many"

abbrev batch : ℕ → String → List String
batch zero s = []
batch (suc n) s = s ∷ batch n ("a" ⊕ s)

abbrev synced : SyncState
synced = record {
  newest_synced_signature = some "n";
  oldest_synced_signature = some "o";
  has_reached_oldest_history = false;
  records = [];
}

-- A native stake of 3 lamports; the balance of the key of 4 goes from 1 to 2, after a fee of 2
abbrev message : CompiledMessage
message = record {
  compiled_instructions =
      record { program_id_index = 5; data_bytes = [] }
      ∷ record { program_id_index = 1; data_bytes = zeros 16 ++ (3 ∷ zeros 7) }
      ∷ [];
  static_account_keys = (4 ∷ []) ∷ (1 ∷ []) ∷ [];
}

abbrev meta : TransactionMeta
meta = record {
  log_messages = some (start_log Types.stake_native ∷ []);
  failed = false;
  fee = some 2;
  pre_balances = some (1 ∷ []);
  post_balances = some (2 ∷ []);
}

amounts_of_message :
    (parse_amount_from_transaction sol_text
        (some message)
        (some meta)
        (1 ∷ [])
        (4 ∷ [])
        Types.stake_native
      ≡ "0.000000003")
    × (parse_amount_from_transaction sol_text
          (some message)
          (some meta)
          (1 ∷ [])
          (4 ∷ [])
          Types.unstake_native
        ≡ "0.000000003")
unfolding parse_amount_from_transaction
amounts_of_message = (refl, refl)

abbrev stake_log : HistoryReader
stake_log = record {
  network = devnet;
  wallet_address = "w";
  stake_account_address = "a";
  slot_of = λ signature. 0;
  block_time_of = λ signature. none;
  get_transaction = λ signature. some (record { message = some message; meta = some meta });
  program_id = 1 ∷ [];
  owner = 4 ∷ [];
  sol_text = sol_text;
}

abbrev new_log : List String
new_log = chain_of stake_log "b" (batch 49 "ab") ("w" ∷ []) [] ("o" ∷ []) "x" "n" "o" synced

abbrev rank : String → ℕ
rank text = if text == "a" then 0 else 1

abbrev rank_before : String → String → Bool
rank_before a b = ltb (rank a) (rank b)

rank-IsOrder : IsOrder rank_before
rank-IsOrder = record {
  asymmetric = λ a b e. ground (arith, e);
  transitive = λ a b c e f. ground (arith, e, f);
}

abbrev history_row : String → ℕ → StakingHistory
history_row signature block_time = record {
  signature = signature;
  cluster = devnet;
  wallet_address = "w";
  stake_account_address = "s";
  slot = 1;
  block_time = block_time;
  action_type = Types.stake_liquid;
  failed = false;
  amount_sol = "1.000000";
}

-- Two rows of one time, which the order of texts ranks
abbrev history_rows : List StakingHistory
history_rows = history_row "c" 2000 ∷ history_row "b" 1000 ∷ history_row "a" 1000 ∷ []

history_page-next_example :
    (history_page rank_before devnet "w" history_rows none 2).records
      ++ (history_page rank_before devnet "w" history_rows (some "b") 1).records
    ≡ history_rows
unfolding history_page
history_page-next_example =
    history_page-next rank_before rank-IsOrder devnet "w" history_rows
      (refl, ((refl, (refl, tt)), (refl, ((refl, tt), (refl, (tt, tt))))))
      ((refl, (refl, tt)), ((refl, tt), (tt, tt))) none 2 1 "b" refl

-- ===== src/Tokens/Holders/Tests.antt =====
-- holder-aggregation.service.ts: the theorems at concrete inputs.
use solsight_api.Prelude.{
  ℕ, ◌-◌, ◌*◌, ◌/◌, String, Bool, true, false, none, some, List, [], ◌∷◌, ◌≡◌, refl, ltb, row_table,
  Table, lookup, insert, string_eq, pair_eq,
}
use solsight_api.Prelude.Text.{Lacks, includes, includes-Lacks}
use solsight_api.Cluster.{mainnet}
use solsight_api.Tokens.Prices.Server.{unary}
use solsight_api.Tokens.Holders.{
  Arithmetic, HolderCommands, HolderUpdateEvent, HolderState, holder_key, holder_buffer_key,
  upsert_row, flush_begin, flush_end, on_holder_update, queue_holder_upsert,
}
use solsight_api.Tokens.Holders.Latest.{
  HolderCall, updates, flushes, call, calls, flush-last_report, flush_end-overtakes,
}

-- `parseInt` of a whole number is the number.
abbrev whole_numbers : Arithmetic
whole_numbers = record {
  Number = ℕ;
  zero = 0;
  nan = 0;
  positive = ltb 0;
  minus = ◌-◌;
  times = ◌*◌;
  divided_by = ◌/◌;
  is_finite = λ n. true;
  whole = λ n. n;
  text = unary;
}

-- The names of the keys that a command has been called for
abbrev logged : String → List String → Bool × List String
logged key log = (true, key ∷ log)

abbrev key_log : HolderCommands
key_log = record {
  State = List String;
  zrem = λ key member. logged key;
  del = logged;
  hset = λ key fields. logged key;
  expire = λ key seconds. logged key;
  zadd = λ key score member. logged key;
}

abbrev report : ℕ → Bool → HolderUpdateEvent whole_numbers
report balance is_removed = record {
  network = mainnet;
  mint = "So11";
  wallet = "9xQe";
  balance = balance;
  last_active_slot = 5;
  last_active_ts = 7;
  is_removed = is_removed;
  total_bought_raw = some 4;
  total_sold_raw = none;
  total_bought_usd = some 8;
  total_sold_usd = none;
  buy_tx_count = some 1;
  sell_tx_count = none;
}

abbrev rows : Table (holder_key whole_numbers)
rows = row_table (holder_key whole_numbers)

abbrev no_holders : HolderState whole_numbers key_log rows
no_holders = record { redis = some []; buffer = []; holders = ([], tt) }

abbrev Call : Type 0
Call = HolderCall whole_numbers key_log rows

abbrev after_calls : List Call → HolderState whole_numbers key_log rows
after_calls ks = calls whole_numbers key_log rows ks no_holders

colon_free_mint : Lacks b':' "So11"
unfolding includes
colon_free_mint = includes-Lacks b':' "So11" refl

colon_free_wallet : Lacks b':' "9xQe"
unfolding includes
colon_free_wallet = includes-Lacks b':' "9xQe" refl

-- An update, a flush that fails, and a second update
flush-last_report_example :
    rows.find
      (("So11", "mainnet"), "9xQe")
      (call whole_numbers key_log rows (flushes true) (
        after_calls
          (updates 1 (report 4 false) ∷ flushes false ∷ updates 3 (report 6 false) ∷ []))).holders
    ≡ some (record {
      token_mint = "So11";
      network = "mainnet";
      wallet = "9xQe";
      balance = unary 6;
      last_active_slot = 5;
      last_active_ts = 7;
      total_bought_raw = unary 4;
      total_sold_raw = unary 0;
      total_bought_usd = 8;
      total_sold_usd = 0;
      buy_tx_count = 1;
      sell_tx_count = 0;
      updated_at = 3;
    })
flush-last_report_example =
    flush-last_report whole_numbers key_log rows mainnet "So11" "9xQe" colon_free_mint
      colon_free_wallet
      (updates 1 (report 4 false) ∷ flushes false ∷ updates 3 (report 6 false) ∷ []) no_holders
      ((colon_free_mint, colon_free_wallet), (tt, ((colon_free_mint, colon_free_wallet), tt))) refl

-- The holder is removed while a flush that fails is waiting.
abbrev failed_flush : HolderState whole_numbers key_log rows
failed_flush =
    flush_end whole_numbers key_log rows false
      (flush_begin whole_numbers key_log rows (after_calls (updates 1 (report 4 false) ∷ []))).0
      (calls whole_numbers key_log rows (updates 2 (report 0 true) ∷ [])
        (flush_begin whole_numbers key_log rows (after_calls (updates 1 (report 4 false) ∷ []))).1)

flush_end-overtakes_example :
    (lookup (holder_buffer_key "mainnet" "So11" "9xQe") failed_flush.buffer
      ≡ some (upsert_row whole_numbers (report 4 false) 1))
    × (rows.find
          (("So11", "mainnet"), "9xQe")
          (call whole_numbers key_log rows (flushes true) failed_flush).holders
        ≡ some (upsert_row whole_numbers (report 4 false) 1))
unfolding call on_holder_update queue_holder_upsert lookup insert
flush_end-overtakes_example =
    flush_end-overtakes whole_numbers key_log rows mainnet "So11" "9xQe" colon_free_mint
      colon_free_wallet (updates 1 (report 4 false) ∷ []) (updates 2 (report 0 true) ∷ [])
      no_holders (upsert_row whole_numbers (report 4 false) 1)
      ((colon_free_mint, colon_free_wallet), tt) ((colon_free_mint, colon_free_wallet), tt) refl
      refl

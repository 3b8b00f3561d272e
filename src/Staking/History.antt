-- ===== src/Staking/History.antt =====
-- staking/services/staking.service.ts: the history of an address, copied from the chain in batches of
-- signatures. The chain answers with the newest signature first.
pub mod Sync
pub mod Gaps
pub mod Skipped
pub mod Page
pub mod Ordered
pub mod Paging
mod Tests
use solsight_api.Prelude.{
  ℕ, ◌*◌, ◌+◌, String, Bool, true, false, not, ◌&&◌, ◌||◌, Option, none, some, List, [], ◌∷◌, ◌++◌,
  take, drop, keep, length, ltb, leb, nat_beq, ◌==◌, string_eq, first, head_of, is_some, or_else,
  if◌then◌else◌,
}
use solsight_api.Cluster.{Cluster}
use solsight_api.Staking.Types.{PublicKey, StakeActionType}
use solsight_api.Staking.Amounts.{CompiledMessage, TransactionMeta, parse_amount_from_transaction}
use solsight_api.Staking.Instructions.{classify_stake_action}

abbrev pub signature_backfill_batch_size : ℕ
signature_backfill_batch_size = 50

-- What `getTransaction` answers, as far as a record needs it
pub record Transaction : Type 0 where
  pub message : Option CompiledMessage
  pub meta : Option TransactionMeta

-- `tx.meta?.logMessages ?? []`
abbrev pub logs_of : Option TransactionMeta → List String
logs_of none = []
logs_of (some meta) = or_else meta.log_messages []

-- `tx.meta?.err`
abbrev pub has_failed : Option TransactionMeta → Bool
has_failed none = false
has_failed (some meta) = meta.failed

-- What the service reads the signatures of an address with: the network, the owner and the program,
-- the node's answers, and the text of an amount
pub record HistoryReader : Type 0 where
  pub network : Cluster
  pub wallet_address : String
  pub stake_account_address : String
  pub slot_of : String → ℕ
  pub block_time_of : String → Option ℕ
  pub get_transaction : String → Option Transaction
  pub program_id : PublicKey
  pub owner : PublicKey
  pub sol_text : ℕ → String

-- entities/staking-history.entity.ts, unique by signature; of the status, whether it is "failed" or
-- "confirmed"
pub record StakingHistory : Type 0 where
  pub signature : String
  pub cluster : Cluster
  pub wallet_address : String
  pub stake_account_address : String
  pub slot : ℕ
  pub block_time : ℕ
  pub action_type : StakeActionType
  pub failed : Bool
  pub amount_sol : String

-- entities/staking-history-sync-state.entity.ts of one address, with the records of the address; the
-- time of the last visit is left out.
pub record SyncState : Type 0 where
  pub newest_synced_signature : Option String
  pub oldest_synced_signature : Option String
  pub has_reached_oldest_history : Bool
  pub records : List StakingHistory

-- `getOrCreateSyncState` for an address that is new
abbrev pub new_sync_state : SyncState
new_sync_state = record {
  newest_synced_signature = none;
  oldest_synced_signature = none;
  has_reached_oldest_history = false;
  records = [];
}

-- `getSignaturesForAddress`, as the RPC documents it: the newest first, those behind `before`, those
-- in front of `until`, at most `limit`
unfoldable pub after_signature : String → List String → List String
after_signature before [] = []
after_signature before (s ∷ ss) =
    let rest = after_signature before ss in if s == before then ss else rest

unfoldable pub until_signature : String → List String → List String
until_signature until [] = []
until_signature until (s ∷ ss) =
    let rest = until_signature until ss in if s == until then [] else s ∷ rest

abbrev pub since : Option String → List String → List String
since none chain = chain
since (some until) chain = until_signature until chain

abbrev pub older_than : Option String → List String → List String
older_than none chain = chain
older_than (some before) chain = after_signature before chain

-- `upsert` by the signature
unfoldable pub upsert_record : StakingHistory → List StakingHistory → List StakingHistory
upsert_record r [] = r ∷ []
upsert_record r (q ∷ qs) =
    let rest = upsert_record r qs in if q.signature == r.signature then r ∷ qs else q ∷ rest

unfoldable pub upsert_records : List StakingHistory → List StakingHistory → List StakingHistory
unfolding upsert_record
upsert_records [] table = table
upsert_records (r ∷ rs) table = upsert_records rs (upsert_record r table)

-- `chain` is the list of signatures of the address.
module _ (reader : HistoryReader) where
  -- One signature of `fetchHistoryRecordsFromSignatures`
  unfoldable pub record_of : String → Option StakingHistory
  unfolding classify_stake_action parse_amount_from_transaction
  record_of signature = elim (reader.get_transaction signature) [
    | none ↦ none
    | some tx ↦ elim (classify_stake_action (logs_of tx.meta)) [
      | none ↦ none
      | some action ↦ some (record {
        signature = signature;
        cluster = reader.network;
        wallet_address = reader.wallet_address;
        stake_account_address = reader.stake_account_address;
        slot = reader.slot_of signature;
        block_time = or_else (reader.block_time_of signature) 0 * 1000;
        action_type = action;
        failed = has_failed tx.meta;
        amount_sol =
            parse_amount_from_transaction reader.sol_text tx.message tx.meta reader.program_id
              reader.owner action;
      })
    ]
  ]

  unfoldable pub fetch_records : List String → List StakingHistory
  unfolding record_of
  fetch_records [] = []
  fetch_records (s ∷ ss) =
      let rest = fetch_records ss in elim (record_of s) [ none ↦ rest | some r ↦ r ∷ rest ]

  abbrev pub last_of : List String → Option String
  last_of [] = none
  last_of (s ∷ []) = some s
  last_of (s ∷ (q ∷ ss)) = last_of (q ∷ ss)

  -- `a ?? b`
  abbrev pub or_other : Option String → Option String → Option String
  or_other none b = b
  or_other (some a) b = some a

  -- The rest of `backfillLatestHistory` for the signatures that came
  abbrev pub latest_batch : List String → SyncState → SyncState
  latest_batch [] s = s
  latest_batch (n ∷ ns) s = record {
    newest_synced_signature = some n;
    oldest_synced_signature = or_other s.oldest_synced_signature (last_of (n ∷ ns));
    has_reached_oldest_history = s.has_reached_oldest_history;
    records = upsert_records (fetch_records (n ∷ ns)) s.records;
  }

  unfoldable pub backfill_latest_history : List String → SyncState → SyncState
  unfolding fetch_records upsert_records until_signature
  backfill_latest_history chain s =
      latest_batch (take signature_backfill_batch_size (since s.newest_synced_signature chain)) s

  abbrev pub older_batch : List String → SyncState → SyncState
  older_batch [] s = record s { has_reached_oldest_history = true }
  older_batch (n ∷ ns) s = record {
    newest_synced_signature = or_other s.newest_synced_signature (some n);
    oldest_synced_signature = last_of (n ∷ ns);
    has_reached_oldest_history = false;
    records = upsert_records (fetch_records (n ∷ ns)) s.records;
  }

  unfoldable pub backfill_older_history : List String → SyncState → SyncState
  unfolding fetch_records upsert_records after_signature
  backfill_older_history chain s =
      older_batch (take signature_backfill_batch_size (older_than s.oldest_synced_signature chain))
        s

  -- What `getHistory` does for an address before it reads a page; `before` tells whether a cursor was
  -- given
  unfoldable pub sync_address : Bool → ℕ → List String → SyncState → SyncState
  unfolding backfill_older_history backfill_latest_history
  sync_address before page_size chain s =
      if before
      then (if ltb (length s.records) page_size && not s.has_reached_oldest_history
          then backfill_older_history chain s
          else s)
      else backfill_latest_history chain s

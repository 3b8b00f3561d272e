-- ===== src/Tokens/Holders.antt =====
-- tokens/services/aggregation/holder-aggregation.service.ts: the updates of holders, first in Redis,
-- then in a buffer that a timer flushes to the table of holders. A flush waits for the database, so it
-- is two steps. Numbers are a parameter.
pub mod Buffer
pub mod Latest
mod Tests
use solsight_api.Prelude.{
  ℕ, ◌-◌, ◌*◌, String, Bool, true, false, ◌&&◌, not, Option, none, some, List, [], ◌∷◌, ◌++◌, map,
  is_some, or_else, string_eq, lookup, insert, delete, if◌then◌else◌, Table,
}
use solsight_api.Prelude.Text.{◌⊕◌}
use solsight_api.Cluster.{Cluster, cluster_name}

-- JavaScript numbers, as far as the service computes with them
pub record Arithmetic : Type 1 where
  pub Number : Type 0
  pub zero : Number
  -- `NaN`, which `undefined` stands for in a sum
  pub nan : Number
  pub positive : Number → Bool
  pub minus : Number → Number → Number
  pub times : Number → Number → Number
  pub divided_by : Number → Number → Number
  -- `Number.isFinite`
  pub is_finite : Number → Bool
  -- `parseInt(String(…), 10)`, with 0 for `NaN`
  pub whole : Number → Number
  pub text : Number → String

-- The commands of Redis; the answer `false` is an exception.
pub record HolderCommands : Type 1 where
  pub State : Type 0
  pub zrem : String → String → State → Bool × State
  pub del : String → State → Bool × State
  pub hset : String → List (String × String) → State → Bool × State
  pub expire : String → ℕ → State → Bool × State
  pub zadd : String → String → String → State → Bool × State

-- `await`s one after the other, up to the first that throws
abbrev pub perform {ℓ} : {S : Type ℓ} → List (S → Bool × S) → S → S
perform [] s = s
perform (f ∷ fs) s = let (done, s') = f s in let rest = perform fs s' in if done then rest else s'

unfoldable pub holder_mint_wallet_key : String → String → String → String
holder_mint_wallet_key network mint wallet = "holder:" ⊕ network ⊕ ":" ⊕ mint ⊕ ":" ⊕ wallet

unfoldable pub holder_ranking_key : String → String → String
holder_ranking_key network mint = "holders:" ⊕ network ⊕ ":" ⊕ mint ⊕ ":ranked"

abbrev pub holder_ttl_s : ℕ
holder_ttl_s = 86400

-- `holderBufferKey`
unfoldable pub holder_buffer_key : String → String → String → String
holder_buffer_key cluster mint wallet = cluster ⊕ ":" ⊕ mint ⊕ ":" ⊕ wallet

module _ (num : Arithmetic) where
  open num use {Number}

  pub record HolderUpdateEvent : Type 0 where
    pub network : Cluster
    pub mint : String
    pub wallet : String
    pub balance : Number
    pub last_active_slot : Number
    pub last_active_ts : Number
    pub is_removed : Bool
    pub total_bought_raw : Option Number
    pub total_sold_raw : Option Number
    pub total_bought_usd : Option Number
    pub total_sold_usd : Option Number
    pub buy_tx_count : Option Number
    pub sell_tx_count : Option Number

  pub record HolderUpsertRow : Type 0 where
    pub token_mint : String
    pub network : String
    pub wallet : String
    pub balance : String
    pub last_active_slot : Number
    pub last_active_ts : Number
    pub total_bought_raw : String
    pub total_sold_raw : String
    pub total_bought_usd : Number
    pub total_sold_usd : Number
    pub buy_tx_count : Number
    pub sell_tx_count : Number
    pub updated_at : ℕ

  abbrev pub HolderKey : Type 0
  HolderKey = (String × String) × String

  -- The unique columns of `holders`
  abbrev pub holder_key : HolderUpsertRow → HolderKey
  holder_key r = ((r.token_mint, r.network), r.wallet)

  -- `toNumber` and `toInt`
  abbrev pub to_number : Option Number → Number
  to_number none = num.zero
  to_number (some x) = if num.is_finite x then x else num.zero

  abbrev pub to_int : Option Number → Number
  to_int none = num.whole num.zero
  to_int (some x) = num.whole x

  unfoldable pub upsert_row : HolderUpdateEvent → ℕ → HolderUpsertRow
  upsert_row e now = record {
    token_mint = e.mint;
    network = cluster_name e.network;
    wallet = e.wallet;
    balance = num.text e.balance;
    last_active_slot = e.last_active_slot;
    last_active_ts = e.last_active_ts;
    total_bought_raw = num.text (or_else e.total_bought_raw num.zero);
    total_sold_raw = num.text (or_else e.total_sold_raw num.zero);
    total_bought_usd = to_number e.total_bought_usd;
    total_sold_usd = to_number e.total_sold_usd;
    buy_tx_count = to_int e.buy_tx_count;
    sell_tx_count = to_int e.sell_tx_count;
    updated_at = now;
  }

  abbrev field : String → Option Number → List (String × String)
  field name none = []
  field name (some x) = (name, num.text x) ∷ []

  -- The average-cost method
  cost_fields : HolderUpdateEvent → List (String × String)
  cost_fields e = elim e.total_bought_raw [
    | none ↦ []
    | some bought ↦
        let average = num.divided_by (or_else e.total_bought_usd num.nan) bought in
        let sold = num.minus bought e.balance in
        let pnl = num.minus (or_else e.total_sold_usd num.nan) (num.times sold average) in
        if num.positive bought
        then ("cost_basis", num.text (num.times e.balance average))
          ∷ (if num.positive sold then ("realized_pnl", num.text pnl) ∷ [] else [])
        else []
  ]

  unfoldable pub update_data : HolderUpdateEvent → List (String × String)
  unfolding cost_fields
  update_data e =
      ("balance", num.text e.balance)
      ∷ ("last_active_ts", num.text e.last_active_ts)
      ∷ ("last_active_slot", num.text e.last_active_slot)
      ∷ (field "total_bought_raw" e.total_bought_raw
          ++ (field "total_sold_raw" e.total_sold_raw
              ++ (field "total_bought" e.total_bought_usd
                  ++ (field "total_sold" e.total_sold_usd
                      ++ (field "buy_tx_count" e.buy_tx_count
                          ++ (field "sell_tx_count" e.sell_tx_count ++ cost_fields e))))))

  module _ (c : HolderCommands) (t : Table holder_key) where
    -- The client, which may be `null`, with its server; the buffer; the table
    pub record HolderState : Type 0 where
      pub redis : Option c.State
      pub buffer : List (String × HolderUpsertRow)
      pub holders : t.State

    abbrev with_redis : List (c.State → Bool × c.State) → Option c.State → Option c.State
    with_redis commands none = none
    with_redis commands (some s) = some (perform commands s)

    abbrev holder_commands : HolderUpdateEvent → List (c.State → Bool × c.State)
    holder_commands e =
        let key = holder_mint_wallet_key (cluster_name e.network) e.mint e.wallet in
        let ranking = holder_ranking_key (cluster_name e.network) e.mint in
        c.hset key (update_data e)
        ∷ c.expire key holder_ttl_s
        ∷ (if num.positive e.balance
            then c.zadd ranking (num.text e.balance) e.wallet
            else c.zrem ranking e.wallet)
        ∷ c.expire ranking holder_ttl_s
        ∷ []

    unfoldable pub queue_holder_upsert : HolderUpdateEvent → ℕ → HolderState → HolderState
    unfolding upsert_row holder_buffer_key
    queue_holder_upsert e now s = record s {
      buffer =
          insert (holder_buffer_key (cluster_name e.network) e.mint e.wallet) (upsert_row e now)
            s.buffer;
    }

    -- The steps of an update: first the commands to Redis, one after the other, then the row for the
    -- table is queued. Each command is waited for.
    unfoldable pub store_holder : HolderUpdateEvent → HolderState → HolderState
    unfolding update_data holder_mint_wallet_key holder_ranking_key
    store_holder e s = record s { redis = with_redis (holder_commands e) s.redis }

    -- The steps of a removal: Redis, the buffer, the table
    unfoldable pub unstore_holder : HolderUpdateEvent → HolderState → HolderState
    unfolding holder_mint_wallet_key holder_ranking_key
    unstore_holder e s =
        let network = cluster_name e.network in
        record s {
          redis =
              with_redis
                (c.zrem (holder_ranking_key network e.mint) e.wallet
                  ∷ c.del (holder_mint_wallet_key network e.mint e.wallet)
                  ∷ [])
                s.redis;
        }

    unfoldable pub unqueue_holder : HolderUpdateEvent → HolderState → HolderState
    unfolding holder_buffer_key
    unqueue_holder e s = record s {
      buffer = delete (holder_buffer_key (cluster_name e.network) e.mint e.wallet) s.buffer;
    }

    -- `deleteHolderState`; `deletes` is whether the database answers.
    unfoldable pub delete_holder_state : Bool → HolderUpdateEvent → HolderState → HolderState
    delete_holder_state deletes e s =
        if deletes
        then record s { holders = t.remove ((e.mint, cluster_name e.network), e.wallet) s.holders }
        else s

    unfoldable pub remove_holder : Bool → HolderUpdateEvent → HolderState → HolderState
    unfolding delete_holder_state unqueue_holder unstore_holder
    remove_holder deletes e s =
        delete_holder_state deletes e (unqueue_holder e (unstore_holder e s))

    -- `onHolderUpdate` with no other call between its steps
    unfoldable pub on_holder_update : Bool → ℕ → HolderUpdateEvent → HolderState → HolderState
    unfolding queue_holder_upsert store_holder remove_holder
    on_holder_update deletes now e s =
        if e.is_removed
        then remove_holder deletes e s
        else queue_holder_upsert e now (store_holder e s)

    -- `Array.from(buffer.values())` and `clear`
    abbrev pub rows_of : List (String × HolderUpsertRow) → List HolderUpsertRow
    rows_of [] = []
    rows_of ((k, r) ∷ rest) = r ∷ rows_of rest

    unfoldable pub flush_begin : HolderState → List HolderUpsertRow × HolderState
    flush_begin s = (rows_of s.buffer, record s { buffer = [] })

    abbrev pub save_all : List HolderUpsertRow → t.State → t.State
    save_all [] holders = holders
    save_all (r ∷ rs) holders = save_all rs (t.save r holders)

    abbrev pub put_back :
        List HolderUpsertRow → List (String × HolderUpsertRow) → List (String × HolderUpsertRow)
    put_back [] buffer = buffer
    put_back (r ∷ rs) buffer =
        put_back rs (insert (holder_buffer_key r.network r.token_mint r.wallet) r buffer)

    -- The reply of the database to the upsert of `rows`
    unfoldable pub flush_end : Bool → List HolderUpsertRow → HolderState → HolderState
    unfolding holder_buffer_key
    flush_end true rows s = record s { holders = save_all rows s.holders }
    flush_end false rows s = record s { buffer = put_back rows s.buffer }

    -- `flushHolderUpserts` with no other call during its wait; for an empty buffer nothing is sent.
    unfoldable pub flush_holder_upserts : Bool → HolderState → HolderState
    unfolding flush_begin flush_end
    flush_holder_upserts stores s = let (rows, s') = flush_begin s in flush_end stores rows s'

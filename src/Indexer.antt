-- ===== src/Indexer.antt =====
-- indexer/services/stream-consumer.service.ts: what a swap that the indexer reports leaves in Redis
-- and in the database. Numbers and the price service are those of Tokens.Prices; the queries that are
-- modelled are taken to reach the database.
pub mod Redelivery
mod Tests
use solsight_api.Prelude.{
  ℕ, String, Bool, true, false, ◌&&◌, Option, none, some, List, [], ◌∷◌, ◌++◌, ◌==◌, nat_eq,
  string_eq, any, if◌then◌else◌, ◌*◌, Result, ok, err, is_some, not,
}
use solsight_api.Cluster.{Cluster, cluster_name}
use solsight_api.Cluster.Channels.{cluster_from_channel}
use solsight_api.Redis.Scripts.{Commands}
use solsight_api.Tokens.Prices.{
  Numbers, TokenPriceSetInput, TokenPriceSource, swap, TokenRow, set_price, get_price,
}

pub data TradeDirection : Type 0 where
  buy sell : TradeDirection

module _ (c : Commands) (num : Numbers) where
  pub record TokenInfo : Type 0 where
    pub mint : String
    pub amount_ui : num.Number
    pub is_quote : Bool

  -- The fields that are read; `network` and `price_usd` can be missing.
  pub record SwapEvent : Type 0 where
    pub network : Option Cluster
    pub timestamp : ℕ
    pub slot : ℕ
    pub signature : String
    pub maker : String
    pub direction : TradeDirection
    pub token_in : TokenInfo
    pub token_out : TokenInfo
    pub price_native : num.Number
    pub price_usd : Option num.Number
    pub fee_amount_ui : Option num.Number

  -- The token that is no quote is the one that is traded.
  unfoldable pub get_token_mint_from_swap : SwapEvent → String
  get_token_mint_from_swap e = if e.token_in.is_quote then e.token_out.mint else e.token_in.mint

  -- A row of market_price_events, with the columns that are set; source and type are fixed.
  pub record MarketPriceEvent : Type 0 where
    pub token_mint : String
    pub network : Cluster
    pub price : num.Number
    pub slot : ℕ
    pub timestamp : ℕ
    pub tx_signature : String

  pub record Metadata : Type 0 where
    pub direction : TradeDirection
    pub price_native : num.Number
    pub price_usd : Option num.Number
    pub fee_amount_ui : Option num.Number

  -- A row of transactions; its type is a swap and its status confirmed. `block_time` is in ms.
  pub record TransactionInsertRow : Type 0 where
    pub signature : String
    pub network : Cluster
    pub amount : num.Number
    pub amount_out : num.Number
    pub token_mint : String
    pub token_mint_out : String
    pub signer_address : String
    pub block_number : ℕ
    pub block_time : ℕ
    pub metadata : Metadata

  -- `started` are the calls of `enqueueIfUnknown` that nobody waits for (Tokens.Sync).
  pub record Store : Type 0 where
    pub redis : c.State
    pub price_events : List MarketPriceEvent
    pub transactions : List TransactionInsertRow
    pub started : List (Cluster × String)

  -- `x != null && x > 0`, for the numbers of JSON
  abbrev pub positive : Option num.Number → Option num.Number
  positive none = none
  positive (some x) = if num.is_valid_write_price x then some x else none

  -- The insert of a price event: the table has no unique index but on its own id, so that there is
  -- nothing for `orIgnore` to ignore.
  unfoldable pub persist_price_event :
      Cluster → SwapEvent → Option num.Number → List MarketPriceEvent → List MarketPriceEvent
  unfolding get_token_mint_from_swap
  persist_price_event network e none rows = rows
  persist_price_event network e (some accepted) rows =
      rows
      ++ record {
        token_mint = get_token_mint_from_swap e;
        network = network;
        price = accepted;
        slot = e.slot;
        timestamp = e.timestamp;
        tx_signature = e.signature;
      }
        ∷ []

  abbrev pub has_signature : String → TransactionInsertRow → Bool
  has_signature signature r = r.signature == signature

  -- The INSERT with ON CONFLICT over signature and network. The column signature is unique by itself
  -- too, and a clash of that alone is an error.
  unfoldable pub insert_transaction_ignore :
      TransactionInsertRow → List TransactionInsertRow → Result String (List TransactionInsertRow)
  insert_transaction_ignore row rows =
      if any
        (λ r. has_signature row.signature r && cluster_name r.network == cluster_name row.network)
        rows
      then ok rows
      else (if any (has_signature row.signature) rows
          then err "duplicate key value violates unique constraint"
          else ok (rows ++ row ∷ []))

  -- An error is logged.
  abbrev pub caught :
      List TransactionInsertRow
      → Result String (List TransactionInsertRow)
      → List TransactionInsertRow
  caught rows (err message) = rows
  caught rows (ok rows') = rows'

  unfoldable pub transaction_row : Cluster → SwapEvent → Option num.Number → TransactionInsertRow
  transaction_row network e resolved = record {
    signature = e.signature;
    network = network;
    amount = e.token_in.amount_ui;
    amount_out = e.token_out.amount_ui;
    token_mint = e.token_in.mint;
    token_mint_out = e.token_out.mint;
    signer_address = e.maker;
    block_number = e.slot;
    block_time = e.timestamp * 1000;
    metadata = record {
      direction = e.direction;
      price_native = e.price_native;
      price_usd = resolved;
      fee_amount_ui = e.fee_amount_ui;
    };
  }

  unfoldable pub persist_transaction :
      Cluster
      → SwapEvent
      → Option num.Number
      → List TransactionInsertRow
      → List TransactionInsertRow
  unfolding insert_transaction_ignore transaction_row
  persist_transaction network e resolved rows =
      caught rows (insert_transaction_ignore (transaction_row network e resolved) rows)

  unfoldable pub price_input : Cluster → SwapEvent → num.Number → TokenPriceSetInput c num
  unfolding get_token_mint_from_swap
  price_input network e price = record {
    cluster = network;
    mint = get_token_mint_from_swap e;
    price_usd = price;
    price_native = e.price_native;
    slot = e.slot;
    source = swap;
  }

  module _ (answers : Bool) (catalog : Cluster → String → Option (TokenRow c num)) where
    unfoldable pub resolve_price_usd : Cluster → SwapEvent → c.State → Option num.Number × c.State
    unfolding get_price get_token_mint_from_swap
    resolve_price_usd network e s = elim (positive e.price_usd) [
      | some price ↦ (some price, s)
      | none ↦
          let (result, s') =
            get_price c num answers catalog network (get_token_mint_from_swap e) s in
          (positive (some result.price_usd), s')
    ]

    -- The write of the price: what it accepts, and the new state of Redis
    unfoldable pub accept_price_usd : Cluster → SwapEvent → c.State → Option num.Number × c.State
    unfolding set_price price_input
    accept_price_usd network e s = elim (positive e.price_usd) [
      | none ↦ (none, s)
      | some price ↦
          let (stored, s') = set_price c num answers (price_input network e price) s in
          (if stored then some price else none, s')
    ]

    unfoldable pub handle_swap : Cluster → SwapEvent → Store → Store
    unfolding accept_price_usd resolve_price_usd persist_price_event persist_transaction
    handle_swap network e s =
        let (accepted, redis1) = accept_price_usd network e s.redis in
        let (resolved, redis2) = resolve_price_usd network e redis1 in
        record {
          redis = redis2;
          price_events = persist_price_event network e accepted s.price_events;
          transactions = persist_transaction network e resolved s.transactions;
          started = s.started ++ (network, e.token_in.mint) ∷ (network, e.token_out.mint) ∷ [];
        }

    -- `handle`: a swap without a network has the one of its channel; `none` is an exception.
    unfoldable pub handle : SwapEvent → String → Store → Option Store
    unfolding cluster_from_channel handle_swap
    handle e channel s = elim e.network [
      | some network ↦ some (handle_swap network e s)
      | none ↦ elim (cluster_from_channel channel) [
        | none ↦ none
        | some network ↦ some (handle_swap network e s)
      ]
    ]

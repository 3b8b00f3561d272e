-- ===== src/Tokens/Ohlc.antt =====
-- tokens/services/aggregation/ohlc-aggregation.service.ts and ohlc-persistor.service.ts: candles of a
-- token's price in Redis, and the finished ones in the database. A price and a volume are natural
-- multiples of a smallest unit. Redis is a parameter, whose commands read and write such numbers; a
-- key that holds another kind of value than its name says is not covered.
pub mod Commands
pub mod Script
pub mod Candles
mod Separation
pub mod Flushing
pub mod Queries
pub mod Ranges
pub mod Server
mod Tests
use solsight_api.Prelude.{
  ℕ, suc, zero, ◌+◌, ◌-◌, ◌*◌, ◌/◌, String, Bool, true, false, ◌&&◌, ◌||◌, not, Option, none, some,
  List, [], ◌∷◌, ◌++◌, min, max, ltb, leb, nat_beq, or_else, is_some, string_eq, ◌==◌, lookup,
  insert, if◌then◌else◌, length, Table,
}
use solsight_api.Prelude.Text.{◌⊕◌, split, is_blank}
use solsight_api.Cluster.{Cluster, cluster_name}
use solsight_api.Tokens.Ohlc.Commands.{OhlcCommands, KeyKind, absent, hash, number}

pub data OhlcInterval : Type 0 where
  ten_seconds one_minute five_minutes : OhlcInterval

abbrev pub interval_name : OhlcInterval → String
interval_name ten_seconds = "10s"
interval_name one_minute = "1m"
interval_name five_minutes = "5m"

abbrev pub interval_ms : OhlcInterval → ℕ
interval_ms ten_seconds = 10000
interval_ms one_minute = 60000
interval_ms five_minutes = 300000

-- `OHLC_INTERVAL_TTLS`, and `RedisService.TTL.OHLC_LAST_CLOSE`
abbrev pub ohlc_interval_ttl : OhlcInterval → ℕ
ohlc_interval_ttl ten_seconds = 3600
ohlc_interval_ttl one_minute = 21600
ohlc_interval_ttl five_minutes = 86400

abbrev pub ohlc_last_close_ttl : OhlcInterval → ℕ
ohlc_last_close_ttl interval = ohlc_interval_ttl interval * 3

-- `getBucketTimestamp`, at the time `now`
unfoldable pub get_bucket_timestamp : OhlcInterval → ℕ → ℕ
get_bucket_timestamp interval now = now / interval_ms interval * interval_ms interval

pub record OhlcData : Type 0 where
  pub open_price : ℕ
  pub high : ℕ
  pub low : ℕ
  pub close : ℕ
  pub volume : ℕ

-- A row of `ohlc_candles`, with its unique index
pub record OhlcCandle : Type 0 where
  pub token_mint : String
  pub network : String
  pub interval : String
  pub timestamp : ℕ
  pub candle : OhlcData

abbrev pub CandleKey : Type 0
CandleKey = (String × String) × (String × ℕ)

abbrev pub candle_key : OhlcCandle → CandleKey
candle_key c = ((c.token_mint, c.network), (c.interval, c.timestamp))

-- `flushFinishedBucket`: the insertion is ignored where the index has the key. `stores` is whether
-- the database answers; an error is logged.
module _ (t : Table candle_key) where
  unfoldable pub flush_finished_bucket : Bool → OhlcCandle → t.State → t.State
  flush_finished_bucket stores row s =
      if stores && not (is_some (t.find (candle_key row) s)) then t.save row s else s

abbrev pub series_name : String → String → OhlcInterval → String
series_name network mint interval = network ⊕ ":" ⊕ mint ⊕ ":" ⊕ interval_name interval

-- `EXISTS`
abbrev pub is_kept : KeyKind → Bool
is_kept absent = false
is_kept hash = true
is_kept number = true

module _ (c : OhlcCommands) where
  unfoldable pub bucket_key : String → String → OhlcInterval → ℕ → String
  bucket_key network mint interval bucket =
      "ohlc:" ⊕ network ⊕ ":" ⊕ mint ⊕ ":" ⊕ interval_name interval ⊕ ":" ⊕ c.text bucket

  unfoldable pub last_close_key : String → String → OhlcInterval → String
  last_close_key network mint interval =
      "ohlc:" ⊕ network ⊕ ":" ⊕ mint ⊕ ":" ⊕ interval_name interval ⊕ ":last_close"

  -- The script, one function for each of its parts
  unfoldable pub open_bucket : String → String → ℕ → c.State → c.State
  open_bucket key last_key price s =
      if is_kept (c.kind key s)
      then s
      else (let open_price = or_else (c.get last_key s) price in
          let s1 = c.hset key "open" open_price s in
          let s2 = c.hset key "high" (max open_price price) s1 in
          let s3 = c.hset key "low" (min open_price price) s2 in c.hset key "volume" 0 s3)

  unfoldable pub raise_high : String → ℕ → c.State → c.State
  raise_high key price s =
      if ltb (or_else (c.hget key "high" s) 0) price then c.hset key "high" price s else s

  unfoldable pub lower_low : String → ℕ → c.State → c.State
  lower_low key price s =
      let current = or_else (c.hget key "low" s) 0 in
      if ltb price current || nat_beq current 0 then c.hset key "low" price s else s

  unfoldable pub update_script : String → String → ℕ → ℕ → ℕ → ℕ → c.State → c.State
  update_script key last_key price volume ttl last_ttl s =
      let s1 = open_bucket key last_key price s in
      let s2 = c.hset key "close" price s1 in
      let s3 = lower_low key price (raise_high key price s2) in
      let s4 = c.expire key ttl (c.hincrbyfloat key "volume" volume s3) in
      c.expire last_key last_ttl (c.set last_key price s4)

  -- `hgetall` with the fields as numbers, `parseFloat(…) || 0`; no field at all is `null`.
  unfoldable pub read_key : String → c.State → Option OhlcData
  read_key key s = elim (c.kind key s) [
    | hash ↦ some (record {
      open_price = or_else (c.hget key "open" s) 0;
      high = or_else (c.hget key "high" s) 0;
      low = or_else (c.hget key "low" s) 0;
      close = or_else (c.hget key "close" s) 0;
      volume = or_else (c.hget key "volume" s) 0;
    })
    | absent ↦ none
    | number ↦ none
  ]

  unfoldable pub read_bucket : String → String → OhlcInterval → ℕ → c.State → Option OhlcData
  unfolding read_key bucket_key
  read_bucket network mint interval bucket s = read_key (bucket_key network mint interval bucket) s

  -- When a call is made, and how Redis and the database answer it
  pub record Moment : Type 0 where
    pub now : ℕ
    pub connected : Bool
    pub reads : Bool
    pub evals : Bool
    pub stores : Bool

  module _ (t : Table candle_key) where
    -- The map of the service, the server of Redis and the candles in the database
    pub record OhlcState : Type 0 where
      pub seen_buckets : List (String × ℕ)
      pub redis : c.State
      pub candles : t.State

    -- `if (previous) await flushFinishedBucket(…)`
    abbrev pub flush_candle :
        Bool → String → String → OhlcInterval → ℕ → Option OhlcData → t.State → t.State
    flush_candle stores mint network interval bucket none s = s
    flush_candle stores mint network interval bucket (some candle) s =
        flush_finished_bucket t stores
          (record {
            token_mint = mint;
            network = network;
            interval = interval_name interval;
            timestamp = bucket;
            candle = candle;
          })
          s

    -- `updateOhlc` from `seenBuckets.set` on
    unfoldable pub record_trade :
        Moment → String → String → OhlcInterval → ℕ → ℕ → OhlcState → OhlcState
    unfolding bucket_key last_close_key
    record_trade m mint network interval price volume s =
        let bucket = get_bucket_timestamp interval m.now in
        let seen = insert (series_name network mint interval) bucket s.seen_buckets in
        if m.evals
        then record s {
          seen_buckets = seen;
          redis =
              update_script (bucket_key network mint interval bucket)
                (last_close_key network mint interval) price volume (ohlc_interval_ttl interval)
                (ohlc_last_close_ttl interval) s.redis;
        }
        else record s { seen_buckets = seen }

    -- A failing read ends the call before anything is written.
    unfoldable pub flush_previous :
        Moment → String → String → OhlcInterval → ℕ → OhlcState → Option OhlcState
    unfolding read_bucket
    flush_previous m mint network interval previous s =
        if m.reads
        then some (record s {
          candles =
              flush_candle m.stores mint network interval previous
                (read_bucket network mint interval previous s.redis) s.candles;
        })
        else none

    unfoldable pub update_ohlc :
        Moment → String → Cluster → OhlcInterval → ℕ → ℕ → OhlcState → OhlcState
    unfolding flush_previous record_trade
    update_ohlc m mint cluster interval price volume s =
        let network = cluster_name cluster in
        let trade = record_trade m mint network interval price volume in
        if m.connected
        then elim (lookup (series_name network mint interval) s.seen_buckets) [
          | none ↦ trade s
          | some previous ↦
              if nat_beq previous (get_bucket_timestamp interval m.now)
              then trade s
              else elim (flush_previous m mint network interval previous s) [
                | none ↦ s
                | some flushed ↦ trade flushed
              ]
        ]
        else s

    -- A swap as far as the candles go: the mints, and `SwapPriceResult`
    pub record SwapTrade : Type 0 where
      pub network : Cluster
      pub mint_in : String
      pub mint_out : String
      pub price_in : ℕ
      pub price_out : ℕ
      pub volume_in : ℕ
      pub volume_out : ℕ

    -- One round of the loop of `onSwapEvent`; `first` and `second` are the moments of its calls.
    unfoldable pub update_both :
        (first second : Moment) → SwapTrade → OhlcInterval → OhlcState → OhlcState
    unfolding update_ohlc
    update_both first second swap interval s =
        update_ohlc second swap.mint_in swap.network interval swap.price_in swap.volume_in
          (update_ohlc first swap.mint_out swap.network interval swap.price_out swap.volume_out s)

    unfoldable pub on_swap_event :
        (OhlcInterval → Moment × Moment) → SwapTrade → OhlcState → OhlcState
    unfolding update_both
    on_swap_event at swap s =
        let round =
          λ (i : OhlcInterval) (st : OhlcState). update_both (at i).0 (at i).1 swap i st in
        round five_minutes (round one_minute (round ten_seconds s))

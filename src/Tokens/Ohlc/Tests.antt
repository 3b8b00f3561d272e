-- ===== src/Tokens/Ohlc/Tests.antt =====
-- ohlc-aggregation.service.ts: the theorems at concrete inputs.
use solsight_api.Prelude.{
  ◌^◌, ℕ, true, none, some, List, [], ◌∷◌, ◌≡◌, ◌≤◌, ◌<◌, refl, arith, All, length, row_table,
  lookup, string_eq, nat_eq, pair_eq,
}
use solsight_api.Cluster.{mainnet}
use solsight_api.Tokens.Ohlc.{
  ten_seconds, OhlcData, candle_key, OhlcState, Moment, get_bucket_timestamp,
}
use solsight_api.Tokens.Ohlc.Server.{Keyspace, keyspace, keyspace-Documented}
use solsight_api.Tokens.Ohlc.Flushing.{Call, call_update, run, update_ohlc-candle}
use solsight_api.Tokens.Ohlc.Queries.{get_historical_ohlc, plus_double, buckets_from}
use solsight_api.Tokens.Ohlc.Ranges.{IsPoint, buckets_from_stuck, get_historical_ohlc-ends}

abbrev moment_at : ℕ → Moment keyspace
moment_at now = record { now = now; connected = true; reads = true; evals = true; stores = true }

abbrev trade_at :
    ℕ → ℕ → ℕ → Call keyspace keyspace-Documented (row_table candle_key) "So11" mainnet ten_seconds
trade_at now price volume = record {
  moment = moment_at now;
  trade = record { price = price; volume = volume };
}

abbrev empty_keyspace : Keyspace
empty_keyspace = record { hashes = []; numbers = [] }

abbrev no_candles : OhlcState keyspace (row_table candle_key)
no_candles = record { seen_buckets = []; redis = empty_keyspace; candles = ([], tt) }

-- Trades at 7, 4 and 9, and one in the next bucket
update_ohlc-candle_example :
    (row_table candle_key).find
      (("So11", "mainnet"), ("10s", 0))
      (call_update keyspace keyspace-Documented
        (row_table candle_key)
        "So11"
        mainnet
        ten_seconds
        (trade_at 12000 5 1)
        (run keyspace keyspace-Documented
          (row_table candle_key)
          "So11"
          mainnet
          ten_seconds
          (trade_at 1000 7 10 ∷ trade_at 2000 4 20 ∷ trade_at 3000 9 30 ∷ [])
          no_candles)).candles
    ≡ some (record {
      token_mint = "So11";
      network = "mainnet";
      interval = "10s";
      timestamp = 0;
      candle = record { open_price = 7; high = 9; low = 4; close = 9; volume = 60 };
    })
unfolding get_bucket_timestamp lookup
update_ohlc-candle_example =
    update_ohlc-candle keyspace keyspace-Documented (row_table candle_key) "So11" mainnet
      ten_seconds 0 (trade_at 1000 7 10) (trade_at 2000 4 20 ∷ trade_at 3000 9 30 ∷ [])
      (trade_at 12000 5 1) no_candles
      (
        record {
          bucket = refl;
          connected = refl;
          reads = refl;
          evals = refl;
          priced = omega arith;
        },
        (
          record {
            bucket = refl;
            connected = refl;
            reads = refl;
            evals = refl;
            priced = omega arith;
          },
          (
            record {
              bucket = refl;
              connected = refl;
              reads = refl;
              evals = refl;
              priced = omega arith;
            },
            tt,
          ),
        ),
      )
      (omega arith) refl refl (omega arith) refl refl refl

-- One candle, in the first bucket of 1970
abbrev one_candle : Keyspace
one_candle = record {
  hashes =
      (
        "ohlc:mainnet:So11:10s:0",
        ("open", 7) ∷ ("high", 9) ∷ ("low", 4) ∷ ("close", 9) ∷ ("volume", 60) ∷ [],
      )
      ∷ [];
  numbers = [];
}

get_historical_ohlc-ends_example :
    (points : List (ℕ × OhlcData)) × (get_historical_ohlc keyspace true mainnet "So11" ten_seconds 2
        none
        (some 5000)
        99000
        one_candle
      ≡ some points)
    × (0 < 2 → length points ≤ 2)
    × All (IsPoint keyspace mainnet "So11" ten_seconds one_candle 0 0) points
unfolding get_bucket_timestamp
get_historical_ohlc-ends_example =
    get_historical_ohlc-ends keyspace mainnet "So11" ten_seconds one_candle true 2 none (some 5000)
      99000 (omega arith)

-- From 10 ^ 22 on a step of ten seconds is lost.
lost_step : plus_double (10 ^ 22) 10000 ≡ 10 ^ 22
unfolding plus_double
lost_step = refl

never_over : buckets_from 1000 10000 (10 ^ 22) (10 ^ 23) ≡ none
never_over = buckets_from_stuck 1000 10000 (10 ^ 22) (10 ^ 23) lost_step (omega arith)

-- ===== src/Tokens/Ohlc/Queries.antt =====
-- ohlc-aggregation.service.ts: the reads of candles by time, and the job that stores old buckets.
-- Times of buckets are counted from 1970, so a range that begins earlier is cut there; what is divided
-- and multiplied stays exact for times below 2 ^ 53.
use solsight_api.Prelude.{
  ℕ, suc, zero, ◌+◌, ◌-◌, ◌*◌, ◌/◌, ◌%◌, ◌^◌, ltb, String, Bool, ◌&&◌, ◌||◌, not, Option, none,
  some, List, [], ◌∷◌, leb, nat_beq, string_eq, ◌==◌, if◌then◌else◌, length, drop, Table,
}
use solsight_api.Prelude.Text.{◌⊕◌, split, is_blank}
use solsight_api.Cluster.{Cluster, cluster_name}
use solsight_api.Tokens.Ohlc.Commands.{OhlcCommands}
use solsight_api.Tokens.Ohlc.{
  OhlcInterval, ten_seconds, one_minute, five_minutes, interval_name, interval_ms,
  get_bucket_timestamp, OhlcData, candle_key, read_bucket, bucket_key, flush_candle,
}

-- `for (let b = start; b <= end; b += intervalMs) buckets.push(b)`; `none` where the fuel runs out
abbrev pub max_exact : ℕ
max_exact = 2 ^ 53

-- The distance of the doubles about a whole number
unfoldable pub spacing : ℕ → ℕ → ℕ
spacing zero n = 1
spacing (suc k) n = let half = spacing k (n / 2) in if ltb n max_exact then 1 else 2 * half

-- The double next to a whole number, the even one of two; 1024 is above the greatest exponent
unfoldable pub round_double : ℕ → ℕ
unfolding spacing
round_double n =
    let step = spacing 1024 n in
    let below = n / step in
    let over = 2 * (n % step) in
    if ltb over step || nat_beq over step && nat_beq (below % 2) 0
    then below * step
    else (below + 1) * step

-- `a + b` on numbers of JavaScript: whole numbers are exact below 2 ^ 53
unfoldable pub plus_double : ℕ → ℕ → ℕ
unfolding round_double
plus_double a b = if ltb (a + b) max_exact then a + b else round_double (a + b)

unfoldable pub buckets_from : ℕ → ℕ → ℕ → ℕ → Option (List ℕ)
buckets_from zero interval b end = none
buckets_from (suc fuel) interval b end =
    let rest = buckets_from fuel interval (plus_double b interval) end in
    if leb b end then elim rest [ none ↦ none | some bs ↦ some (b ∷ bs) ] else some []

-- `xs.slice(-n)`, which for 0 is all of `xs`
unfoldable pub slice_last {ℓ} : {A : Type ℓ} → ℕ → List A → List A
slice_last n xs = if nat_beq n 0 then xs else drop (length xs - n) xs

-- `x ? floor(x) : d`, where an absent time and 0 are falsy
abbrev pub floor_or : OhlcInterval → Option ℕ → ℕ → ℕ
floor_or interval none d = d
floor_or interval (some x) d = if nat_beq x 0 then d else get_bucket_timestamp interval x

abbrev pub interval_names : List (String × OhlcInterval)
interval_names =
    ("10s", ten_seconds)
    ∷ ("1m", one_minute)
    ∷ ("5m", five_minutes)
    ∷ ("15m", five_minutes)
    ∷ ("1h", five_minutes)
    ∷ ("4h", five_minutes)
    ∷ ("1d", five_minutes)
    ∷ ("1w", five_minutes)
    ∷ []

-- `intervalMap[interval] || "1m"`
abbrev named : String → List (String × OhlcInterval) → OhlcInterval
named name [] = one_minute
named name ((n, i) ∷ rest) = if n == name then i else named name rest

unfoldable pub ohlc_interval : String → OhlcInterval
ohlc_interval name = named name interval_names

module _ (c : OhlcCommands) where
  unfoldable pub get_ohlc : Bool → Cluster → String → OhlcInterval → ℕ → c.State → Option OhlcData
  unfolding read_bucket
  get_ohlc answers cluster mint interval now s =
      if answers
      then read_bucket c (cluster_name cluster) mint interval (get_bucket_timestamp interval now) s
      else none

  abbrev point : ℕ → Option OhlcData → List (ℕ × OhlcData) → List (ℕ × OhlcData)
  point bucket none rest = rest
  point bucket (some candle) rest = (bucket, candle) ∷ rest

  -- The points of the buckets that have a candle
  unfoldable pub points_of :
      Cluster → String → OhlcInterval → List ℕ → c.State → List (ℕ × OhlcData)
  unfolding read_bucket
  points_of cluster mint interval [] s = []
  points_of cluster mint interval (b ∷ bs) s =
      point b (read_bucket c (cluster_name cluster) mint interval b s)
        (points_of cluster mint interval bs s)

  -- `none` where the loop has not ended
  unfoldable pub get_historical_ohlc :
      Bool
      → Cluster
      → String
      → OhlcInterval
      → ℕ
      → Option ℕ
      → Option ℕ
      → ℕ
      → c.State
      → Option (List (ℕ × OhlcData))
  unfolding buckets_from
  get_historical_ohlc answers cluster mint interval limit from to now s =
      let ms = interval_ms interval in
      let end_bucket = floor_or interval to (get_bucket_timestamp interval now) in
      let start_bucket = floor_or interval from (end_bucket + ms - limit * ms) in
      if answers
      then elim (buckets_from (end_bucket / ms + 2) ms start_bucket end_bucket) [
        | none ↦ none
        | some buckets ↦ some (points_of cluster mint interval (slice_last limit buckets) s)
      ]
      else some []

  -- The loop of `getOhlcData`, from `i = n - 1` down to 0
  unfoldable pub data_points :
      Cluster → String → OhlcInterval → ℕ → ℕ → c.State → List (ℕ × OhlcData)
  unfolding read_bucket
  data_points cluster mint interval zero now s = []
  data_points cluster mint interval (suc i) now s =
      let bucket = get_bucket_timestamp interval (now - i * interval_ms interval) in
      point bucket (read_bucket c (cluster_name cluster) mint interval bucket s)
        (data_points cluster mint interval i now s)

  unfoldable pub get_ohlc_data :
      Bool → Cluster → String → String → ℕ → ℕ → c.State → List (ℕ × OhlcData)
  unfolding data_points ohlc_interval
  get_ohlc_data answers cluster mint interval limit now s =
      if answers then data_points cluster mint (ohlc_interval interval) limit now s else []

  pub record ParsedBucketKey : Type 0 where
    pub network : String
    pub token_mint : String
    pub interval : OhlcInterval
    pub bucket : ℕ

  -- `isOhlcInterval`; the names that every object inherits, which it lets pass, are no interval of
  -- the job either.
  abbrev interval_of : String → Option OhlcInterval
  interval_of name =
      if name == "10s"
      then some ten_seconds
      else if name == "1m"
      then some one_minute
      else if name == "5m"
      then some five_minutes
      else none

  parts_of_key : List String → Option ParsedBucketKey
  parts_of_key (prefix ∷ network ∷ mint ∷ interval ∷ bucket_raw ∷ _) =
      if (prefix == "ohlc") && not (is_blank network) && not (is_blank mint)
      then elim (interval_of interval) [
        | none ↦ none
        | some i ↦ elim (c.to_number bucket_raw) [
          | none ↦ none
          | some bucket ↦
              some (record { network = network; token_mint = mint; interval = i; bucket = bucket })
        ]
      ]
      else none
  parts_of_key _ = none

  unfoldable pub parse_bucket_key : String → Option ParsedBucketKey
  unfolding parts_of_key
  parse_bucket_key key = parts_of_key (split b':' key)

  module _ (t : Table candle_key) where
    -- One round of the loop over the keys of a page
    unfoldable pub flush_key : Bool → OhlcInterval → ℕ → String → c.State → t.State → t.State
    unfolding read_bucket parse_bucket_key
    flush_key stores interval stale_before key s candles = elim (parse_bucket_key key) [
      | none ↦ candles
      | some parsed ↦
          if not (interval_name parsed.interval == interval_name interval)
            || leb stale_before parsed.bucket
          then candles
          else flush_candle c t stores parsed.token_mint parsed.network parsed.interval
              parsed.bucket
              (read_bucket c parsed.network parsed.token_mint parsed.interval parsed.bucket s)
              candles
    ]

    unfoldable pub flush_keys : Bool → OhlcInterval → ℕ → List String → c.State → t.State → t.State
    unfolding flush_key
    flush_keys stores interval stale_before [] s candles = candles
    flush_keys stores interval stale_before (key ∷ keys) s candles =
        flush_keys stores interval stale_before keys s
          (flush_key stores interval stale_before key s candles)

    -- The loop by the cursor: page after page
    unfoldable pub flush_pages :
        Bool → OhlcInterval → ℕ → List (List String) → c.State → t.State → t.State
    unfolding flush_keys
    flush_pages stores interval stale_before [] s candles = candles
    flush_pages stores interval stale_before (page ∷ pages) s candles =
        flush_pages stores interval stale_before pages s
          (flush_keys stores interval stale_before page s candles)

    unfoldable pub flush_interval : Bool → ℕ → OhlcInterval → c.State → t.State → t.State
    unfolding flush_pages bucket_key
    flush_interval stores now interval s candles =
        flush_pages stores interval (get_bucket_timestamp interval (now - interval_ms interval * 2))
          (c.scan ("ohlc:*:*:" ⊕ interval_name interval ⊕ ":*") s) s candles

    -- `flushStaleBucketsFromRedis`, where Redis answers; a run that is under way, or no client, ends it
    -- at once.
    unfoldable pub flush_stale_buckets : Bool → Bool → Bool → ℕ → c.State → t.State → t.State
    unfolding flush_interval
    flush_stale_buckets is_flushing connected stores now s candles =
        if is_flushing || not connected
        then candles
        else flush_interval stores now five_minutes s (
            flush_interval stores now one_minute s
              (flush_interval stores now ten_seconds s candles))

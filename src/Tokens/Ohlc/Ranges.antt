-- ===== src/Tokens/Ohlc/Ranges.antt =====
-- ohlc-aggregation.service.ts: the loops over buckets end, and the two reads of a history agree.
use solsight_api.Prelude.{
  ℕ, suc, zero, ◌+◌, ◌-◌, ◌*◌, ◌/◌, String, Bool, true, false, Option, none, some, List, [], ◌∷◌,
  nat_beq, ltb, leb, length, drop, length-drop, ◌≡◌, ◌≤◌, ◌<◌, refl, arith, ap, All, Bool-cases,
  Option-cases, inl, inr, ◌∙◌, sym,
}
use solsight_api.Cluster.{Cluster, cluster_name}
use solsight_api.Tokens.Ohlc.Commands.{OhlcCommands}
use solsight_api.Tokens.Ohlc.{
  OhlcInterval, ten_seconds, one_minute, five_minutes, interval_ms, get_bucket_timestamp, OhlcData,
  read_bucket,
}
use solsight_api.Tokens.Ohlc.Queries.{
  max_exact, plus_double, buckets_from, slice_last, floor_or, points_of, get_historical_ohlc,
  data_points, get_ohlc_data, ohlc_interval,
}

-- `n` buckets from `b` on
up : ℕ → ℕ → ℕ → List ℕ
up ms zero b = []
up ms (suc n) b = b ∷ up ms n (b + ms)

length-up : (ms n b : ℕ) → length (up ms n b) ≡ n
unfolding up
length-up ms zero b = refl
length-up ms (suc n) b = ap suc (length-up ms n (b + ms))

plus_double_exact : (a b : ℕ) → a + b < max_exact → plus_double a b ≡ a + b
unfolding plus_double
plus_double_exact a b h = let exact : ltb (a + b) max_exact ≡ true = ground (arith, h) in rw exact

within_lem : (a b : ℕ) → a ≤ b → leb a b ≡ true
within_lem a b h = ground (arith, h)

-- A loop whose step is lost in the rounding never ends.
pub buckets_from_stuck :
    (fuel ms b end : ℕ) → plus_double b ms ≡ b → b ≤ end → buckets_from fuel ms b end ≡ none
unfolding buckets_from
buckets_from_stuck zero ms b end lost inside = refl
buckets_from_stuck (suc fuel) ms b end lost inside =
    let still = within_lem b end inside in
    rw (still, lost, buckets_from_stuck fuel ms b end lost inside)

buckets_from-up :
    (fuel n ms b end : ℕ)
    → end + ms < max_exact
    → n < fuel
    → end < b + n * ms
    → (0 < n → b + n * ms ≤ end + ms)
    → buckets_from fuel ms b end ≡ some (up ms n b)
unfolding buckets_from up
buckets_from-up zero n ms b end exact enough over under = absurd (omega arith)
buckets_from-up (suc fuel) zero ms b end exact enough over under = ground arith
buckets_from-up (suc fuel) (suc n) ms b end exact enough over under =
    let inside : b + suc n * ms ≤ end + ms = under (omega arith) in
    let next : b + ms < max_exact = grind (arith, inside, exact) in
    rw
      (
        plus_double_exact b ms next,
        buckets_from-up fuel n ms (b + ms) end exact (omega arith) (grind arith)
            (λ pos. grind arith),
      )
      (ground arith)

-- The number of buckets from one time to another
abbrev count : OhlcInterval → ℕ → ℕ → ℕ
count interval start end = (end + interval_ms interval - start) / interval_ms interval

buckets_from_lem :
    (interval : OhlcInterval) (start end : ℕ)
    → end + interval_ms interval < max_exact
    → buckets_from (end / interval_ms interval + 2) (interval_ms interval) start end
      ≡ some (up (interval_ms interval) (count interval start end) start)
buckets_from_lem ten_seconds start end exact =
    buckets_from-up _ (count ten_seconds start end) 10000 start end exact (omega arith)
      (omega arith) (λ pos. omega arith)
buckets_from_lem one_minute start end exact =
    buckets_from-up _ (count one_minute start end) 60000 start end exact (omega arith) (omega arith)
      (λ pos. omega arith)
buckets_from_lem five_minutes start end exact =
    buckets_from-up _ (count five_minutes start end) 300000 start end exact (omega arith)
      (omega arith) (λ pos. omega arith)

abbrev InRange : ℕ → ℕ → ℕ → Type 0
InRange start end b = (start ≤ b) × (b ≤ end)

up-InRange :
    (ms n start b end : ℕ)
    → start ≤ b
    → (0 < n → b + n * ms ≤ end + ms)
    → All (InRange start end) (up ms n b)
unfolding up
up-InRange ms zero start b end low high = tt
up-InRange ms (suc n) start b end low high =
    let inside : b + suc n * ms ≤ end + ms = high (omega arith) in
    ((low, grind arith), up-InRange ms n start (b + ms) end (omega arith) (λ pos. grind arith))

up_lem :
    (interval : OhlcInterval) (start end : ℕ)
    → All (InRange start end) (up (interval_ms interval) (count interval start end) start)
up_lem ten_seconds start end =
    up-InRange 10000 (count ten_seconds start end) start start end (omega arith)
      (λ pos. omega arith)
up_lem one_minute start end =
    up-InRange 60000 (count one_minute start end) start start end (omega arith) (λ pos. omega arith)
up_lem five_minutes start end =
    up-InRange 300000 (count five_minutes start end) start start end (omega arith)
      (λ pos. omega arith)

module _ {A : Type 0} where
  length-slice_last : (n : ℕ) (xs : List A) → 0 < n → length (slice_last n xs) ≤ n
  unfolding slice_last
  length-slice_last n xs pos = ground (arith, length-drop (length xs - n) xs)

  drop-All : (P : A → Type 0) (n : ℕ) (xs : List A) → All P xs → All P (drop n xs)
  drop-All P zero xs h = h
  drop-All P (suc n) [] h = tt
  drop-All P (suc n) (x ∷ xs) (p, h) = drop-All P n xs h

  slice_last-All : (P : A → Type 0) (n : ℕ) (xs : List A) → All P xs → All P (slice_last n xs)
  unfolding slice_last
  slice_last-All P n xs h = elim (Bool-cases (nat_beq n 0)) [
    | inl z ↦ rw z h
    | inr pos ↦ rw pos (drop-All P (length xs - n) xs h)
  ]

  -- A list that is short enough is taken whole.
  slice_last_whole : (n : ℕ) (xs : List A) → length xs ≤ n → slice_last n xs ≡ xs
  unfolding slice_last
  slice_last_whole n xs short =
      let e : length xs - n ≡ 0 = omega arith in
      elim (Bool-cases (nat_beq n 0)) [ inl z ↦ rw z | inr pos ↦ rw (pos, e) ]

module _ (c : OhlcCommands) (cluster : Cluster) (mint : String) (interval : OhlcInterval)
    (s : c.State) where
  -- A point of the answer: a bucket of the range with the candle that is stored for it
  abbrev pub IsPoint : ℕ → ℕ → ℕ × OhlcData → Type 0
  IsPoint start end p =
      InRange start end p.0 × (read_bucket c (cluster_name cluster) mint interval p.0 s ≡ some p.1)

  length-points_of : (bs : List ℕ) → length (points_of c cluster mint interval bs s) ≤ length bs
  unfolding points_of
  length-points_of [] = omega arith
  length-points_of (b ∷ bs) =
      elim (Option-cases (read_bucket c (cluster_name cluster) mint interval b s)) [
        | inl e ↦ rw (e, points_of) (omega (arith, length-points_of bs))
        | inr (d, e) ↦ rw (e, points_of) (omega (arith, length-points_of bs))
      ]

  points_of-IsPoint :
      (start end : ℕ) (bs : List ℕ)
      → All (InRange start end) bs
      → All (IsPoint start end) (points_of c cluster mint interval bs s)
  unfolding points_of
  points_of-IsPoint start end [] h = tt
  points_of-IsPoint start end (b ∷ bs) (p, h) =
      elim (Option-cases (read_bucket c (cluster_name cluster) mint interval b s)) [
        | inl e ↦ rw (e, points_of) (points_of-IsPoint start end bs h)
        | inr (d, e) ↦ rw (e, points_of) ((p, e), points_of-IsPoint start end bs h)
      ]

  abbrev pub range_end : Option ℕ → ℕ → ℕ
  range_end to now = floor_or interval to (get_bucket_timestamp interval now)

  abbrev pub range_start : ℕ → Option ℕ → Option ℕ → ℕ → ℕ
  range_start limit from to now =
      floor_or interval from
        (range_end to now + interval_ms interval - limit * interval_ms interval)

  abbrev range : ℕ → Option ℕ → Option ℕ → ℕ → List ℕ
  range limit from to now =
      let start = range_start limit from to now in
      up (interval_ms interval) (count interval start (range_end to now)) start

  historical_lem :
      (limit : ℕ) (from to : Option ℕ) (now : ℕ)
      → range_end to now + interval_ms interval < max_exact
      → get_historical_ohlc c true cluster mint interval limit from to now s
        ≡ some (points_of c cluster mint interval (slice_last limit (range limit from to now)) s)
  unfolding get_historical_ohlc
  historical_lem limit from to now exact = rw (
    buckets_from_lem interval (range_start limit from to now) (range_end to now) exact,
    get_historical_ohlc,
  )

  -- For a range whose end and one interval more stay below 2 ^ 53, the loop of getHistoricalOhlc ends,
  -- with the sums of JavaScript; the answer has at most `limit` points, for a
  -- limit above 0, and each is a bucket of the range with the candle that is stored for it.
  pub get_historical_ohlc-ends :
      (answers : Bool) (limit : ℕ) (from to : Option ℕ) (now : ℕ)
      → range_end to now + interval_ms interval < max_exact
      → (points : List (ℕ × OhlcData)) × (get_historical_ohlc c answers cluster mint interval limit
            from to now s
          ≡ some points)
        × (0 < limit → length points ≤ limit)
        × All (IsPoint (range_start limit from to now) (range_end to now)) points
  unfolding get_historical_ohlc
  get_historical_ohlc-ends false limit from to now exact = ([], refl, λ pos. omega arith, tt)
  get_historical_ohlc-ends true limit from to now exact =
      let bs = slice_last limit (range limit from to now) in
      let start = range_start limit from to now in
      let end = range_end to now in
      (
        points_of c cluster mint interval bs s,
        historical_lem limit from to now exact,
        λ pos.
            omega
              (arith, length-points_of bs, length-slice_last limit (range limit from to now) pos),
        points_of-IsPoint start end bs (
            slice_last-All (InRange start end) limit (range limit from to now)
              (up_lem interval start end)),
      )

bucket_back :
    (interval : OhlcInterval) (i now : ℕ)
    → i * interval_ms interval ≤ now
    → get_bucket_timestamp interval (now - i * interval_ms interval)
      ≡ get_bucket_timestamp interval now + interval_ms interval - suc i * interval_ms interval
unfolding get_bucket_timestamp
bucket_back ten_seconds i now h = omega arith
bucket_back one_minute i now h = omega arith
bucket_back five_minutes i now h = omega arith

bucket_step :
    (interval : OhlcInterval) (i now : ℕ)
    → i * interval_ms interval ≤ now
    → get_bucket_timestamp interval now
        + interval_ms interval
        - suc i * interval_ms interval
        + interval_ms interval
      ≡ get_bucket_timestamp interval now + interval_ms interval - i * interval_ms interval
unfolding get_bucket_timestamp
bucket_step ten_seconds i now h = omega arith
bucket_step one_minute i now h = omega arith
bucket_step five_minutes i now h = omega arith

last_count :
    (interval : OhlcInterval) (n now : ℕ)
    → n * interval_ms interval ≤ now
    → count interval
        (get_bucket_timestamp interval now + interval_ms interval - n * interval_ms interval)
        (get_bucket_timestamp interval now)
      ≡ n
unfolding get_bucket_timestamp
last_count ten_seconds n now h = omega arith
last_count one_minute n now h = omega arith
last_count five_minutes n now h = omega arith

module _ (c : OhlcCommands) (cluster : Cluster) (mint : String) (s : c.State) where
  data_points_lem :
      (interval : OhlcInterval) (n now : ℕ)
      → n * interval_ms interval ≤ now
      → data_points c cluster mint interval n now s
        ≡ points_of c cluster mint interval
            (up
              (interval_ms interval)
              n
              (get_bucket_timestamp interval now + interval_ms interval - n * interval_ms interval))
            s
  unfolding data_points points_of up
  data_points_lem interval zero now h = refl
  data_points_lem interval (suc i) now h =
      let less : i * interval_ms interval ≤ now = grind arith in
      rw (
        bucket_back interval i now less,
        bucket_step interval i now less,
        data_points_lem interval i now less,
      )

  -- For a limit that does not reach back before 1970, getOhlcData answers what getHistoricalOhlc
  -- answers without a range, for the interval that the name stands for.
  get_ohlc_data-get_historical_ohlc :
      (answers : Bool) (name : String) (limit now : ℕ)
      → limit * interval_ms (ohlc_interval name) ≤ now
      → get_bucket_timestamp (ohlc_interval name) now + interval_ms (ohlc_interval name) < max_exact
      → get_historical_ohlc c answers cluster mint (ohlc_interval name) limit none none now s
        ≡ some (get_ohlc_data c answers cluster mint name limit now s)
  unfolding get_ohlc_data get_historical_ohlc
  get_ohlc_data-get_historical_ohlc false name limit now h exact = refl
  get_ohlc_data-get_historical_ohlc true name limit now h exact =
      let interval = ohlc_interval name in
      let ms = interval_ms interval in
      let start = get_bucket_timestamp interval now + ms - limit * ms in
      historical_lem c cluster mint interval s limit none none now exact
      ∙ rw (last_count interval limit now h) (
          rw (slice_last_whole limit (up ms limit start) (omega (arith, length-up ms limit start)))
            (ap some (sym (data_points_lem interval limit now h))))

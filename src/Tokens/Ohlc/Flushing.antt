-- ===== src/Tokens/Ohlc/Flushing.antt =====
-- ohlc-aggregation.service.ts: a bucket from its first trade to the row in the database.
use solsight_api.Prelude.{
  ℕ, String, Bool, true, false, Option, none, some, List, [], ◌∷◌, ◌≡◌, ◌≢◌, ◌<◌, refl, arith, ap,
  subst, string_eq, or_else, nat_beq, All, ◌∙◌, Table, lookup, lookup-insert, eq_self, Bool-cases,
  Option-cases, inl, inr,
}
use solsight_api.Cluster.{Cluster, cluster_name}
use solsight_api.Tokens.Ohlc.Commands.{OhlcCommands, OhlcDocumented, absent}
use solsight_api.Tokens.Ohlc.{
  OhlcInterval, ohlc_interval_ttl, ohlc_last_close_ttl, interval_name, OhlcData, OhlcCandle,
  candle_key, CandleKey, OhlcState, Moment, update_ohlc, flush_previous, record_trade, flush_candle,
  get_bucket_timestamp, series_name, bucket_key, last_close_key, update_script, read_bucket,
  flush_finished_bucket,
}
use solsight_api.Tokens.Ohlc.Script.{Holds, read_key-Holds}
use solsight_api.Tokens.Ohlc.Candles.{
  Trade, candle_of, after, after_all, after_all_lem, candle_of-cons, Holds-next, Holds-first,
}
use solsight_api.Tokens.Ohlc.Separation.{
  ttl_pos, last_ttl_pos, nat_beq_ne, find-flush_ne, find-flush_self, keys_differ,
}

module _ (c : OhlcCommands) (doc : OhlcDocumented c) where
  module _ (t : Table candle_key) (mint : String) (cluster : Cluster) (i : OhlcInterval) where
    abbrev State : Type 0
    State = OhlcState c t

    abbrev network : String
    network = cluster_name cluster

    abbrev script : ℕ → Trade → c.State → c.State
    script b x =
        update_script c (bucket_key c network mint i b) (last_close_key c network mint i) x.price
          x.volume (ohlc_interval_ttl i) (ohlc_last_close_ttl i)

    abbrev row_key : ℕ → (String × String) × (String × ℕ)
    row_key b = ((mint, network), (interval_name i, b))

    -- What a call that reaches Redis leaves: the bucket in the map, the candle, and no row of the
    -- bucket that it is in
    record Recorded (b : ℕ) (x : Trade) (s s' : State) : Type 0 where
      seen : lookup (series_name network mint i) s'.seen_buckets ≡ some b
      redis_lem : s'.redis ≡ script b x s.redis
      row : t.find (row_key b) s'.candles ≡ t.find (row_key b) s.candles

    abbrev at_bucket : Moment c → ℕ
    at_bucket m = get_bucket_timestamp i m.now

    record_trade-Recorded :
        (m : Moment c) (x : Trade) (s : State)
        → m.evals ≡ true
        → Recorded (at_bucket m) x s (record_trade c t m mint network i x.price x.volume s)
    unfolding record_trade
    record_trade-Recorded m x s e = rw e (record {
      seen = rw (
        lookup-insert (series_name network mint i) (series_name network mint i) (at_bucket m)
            s.seen_buckets,
        eq_self (series_name network mint i),
      );
      redis_lem = refl;
      row = refl;
    })

    flushed_row :
        (stores : Bool) (previous b : ℕ) (candle : Option OhlcData) (s : t.State)
        → nat_beq previous b ≡ false
        → t.find (row_key b) (flush_candle c t stores mint network i previous candle s)
          ≡ t.find (row_key b) s
    flushed_row stores previous b none s ne = refl
    flushed_row stores previous b (some d) s ne =
        find-flush_ne t stores
          (record {
            token_mint = mint;
            network = network;
            interval = interval_name i;
            timestamp = previous;
            candle = d;
          })
          s (row_key b) (λ q. nat_beq_ne ne (ap (λ (k : CandleKey). k.1.1) q))

    update_ohlc-Recorded :
        (m : Moment c) (x : Trade) (s : State)
        → m.connected ≡ true
        → m.reads ≡ true
        → m.evals ≡ true
        → Recorded (at_bucket m) x s (update_ohlc c t m mint cluster i x.price x.volume s)
    unfolding update_ohlc flush_previous
    update_ohlc-Recorded m x s on reads evals =
        elim (Option-cases (lookup (series_name network mint i) s.seen_buckets)) [
          | inl e ↦ rw on (rw (e, update_ohlc) (record_trade-Recorded m x s evals))
          | inr (previous, e) ↦ elim (Bool-cases (nat_beq previous (at_bucket m))) [
            | inl same ↦ rw on (rw (e, update_ohlc) (rw same (record_trade-Recorded m x s evals)))
            | inr moved ↦ rw on (
                rw (e, update_ohlc)
                  (rw (moved, reads, update_ohlc)
                    (let flushed : State = record s {
                      candles =
                          flush_candle c t m.stores mint network i previous
                            (read_bucket c network mint i previous s.redis) s.candles;
                    } in
                      let r = record_trade-Recorded m x flushed evals in
                      record {
                        seen = r.seen;
                        redis_lem = r.redis_lem;
                        row =
                            r.row
                            ∙ flushed_row m.stores previous (at_bucket m)
                                (read_bucket c network mint i previous s.redis) s.candles moved;
                      })))
          ]
        ]

    pub record Call : Type 0 where
      pub moment : Moment c
      pub trade : Trade

    abbrev pub call_update : Call → State → State
    call_update k s = update_ohlc c t k.moment mint cluster i k.trade.price k.trade.volume s

    -- Calls of `updateOhlc` one after the other
    abbrev pub run : List Call → State → State
    run [] s = s
    run (k ∷ rest) s = run rest (call_update k s)

    abbrev pub trades : List Call → List Trade
    trades [] = []
    trades (k ∷ rest) = k.trade ∷ trades rest

    -- A call in bucket `b` for a trade with a price, which Redis answers
    pub record IsIn (b : ℕ) (k : Call) : Type 0 where
      pub bucket : at_bucket k.moment ≡ b
      pub connected : k.moment.connected ≡ true
      pub reads : k.moment.reads ≡ true
      pub evals : k.moment.evals ≡ true
      pub priced : 0 < k.trade.price

    call_update-Recorded :
        (b : ℕ) (k : Call) (s : State) → IsIn b k → Recorded b k.trade s (call_update k s)
    call_update-Recorded b k s good =
        subst (λ (b' : ℕ). Recorded b' k.trade s (call_update k s)) good.bucket
          (update_ohlc-Recorded k.moment k.trade s good.connected good.reads good.evals)

    abbrev HoldsIn : ℕ → OhlcData → c.State → Type 0
    HoldsIn b = Holds c doc (bucket_key c network mint i b) (last_close_key c network mint i)

    record Keeps (b : ℕ) (d : OhlcData) (before s : State) : Type 0 where
      seen : lookup (series_name network mint i) s.seen_buckets ≡ some b
      holds : HoldsIn b d s.redis
      row : t.find (row_key b) s.candles ≡ t.find (row_key b) before.candles

    call_update-Keeps :
        (b : ℕ) (d : OhlcData) (k : Call) (s0 s : State)
        → IsIn b k
        → 0 < d.low
        → Keeps b d s0 s
        → Keeps b (after d k.trade) s0 (call_update k s)
    call_update-Keeps b d k s0 s good low keeps =
        let r = call_update-Recorded b k s good in
        record {
          seen = r.seen;
          holds = rw r.redis_lem (
              Holds-next c doc (bucket_key c network mint i b) (last_close_key c network mint i)
                (ohlc_interval_ttl i) (ohlc_last_close_ttl i) (ttl_pos i) (last_ttl_pos i)
                (keys_differ c doc network mint i b) d k.trade s.redis good.priced low keeps.holds);
          row = r.row ∙ keeps.row;
        }

    run-Keeps :
        (b : ℕ) (calls : List Call) (d : OhlcData) (s0 s : State)
        → All (IsIn b) calls
        → 0 < d.low
        → Keeps b d s0 s
        → Keeps b (after_all d (trades calls)) s0 (run calls s)
    unfolding after_all after
    run-Keeps b [] d s0 s _ low keeps = keeps
    run-Keeps b (k ∷ rest) d s0 s (good, goods) low keeps =
        run-Keeps b rest (after d k.trade) s0 (call_update k s) goods (omega (arith, good.priced))
          (call_update-Keeps b d k s0 s good low keeps)

    -- The price at which a bucket opens
    abbrev pub opening : Trade → State → ℕ
    opening x s = or_else (c.get (last_close_key c network mint i) s.redis) x.price

    run-Keeps_first :
        (b : ℕ) (k : Call) (rest : List Call) (s : State)
        → All (IsIn b) (k ∷ rest)
        → 0 < opening k.trade s
        → c.kind (bucket_key c network mint i b) s.redis ≡ absent
        → Keeps b (candle_of (opening k.trade s) (k.trade ∷ trades rest)) s (run (k ∷ rest) s)
    run-Keeps_first b k rest s (good, goods) opens none_yet =
        let o = opening k.trade s in
        let r = call_update-Recorded b k s good in
        let first : OhlcData = candle_of o (k.trade ∷ []) in
        let start : Keeps b first s (call_update k s) = record {
          seen = r.seen;
          holds = rw r.redis_lem (
              Holds-first c doc (bucket_key c network mint i b) (last_close_key c network mint i)
                (ohlc_interval_ttl i) (ohlc_last_close_ttl i) (ttl_pos i) (last_ttl_pos i)
                (keys_differ c doc network mint i b) k.trade s.redis good.priced opens none_yet);
          row = r.row;
        } in
        subst (λ (d : OhlcData). Keeps b d s (run rest (call_update k s)))
          (after_all_lem first (trades rest) ∙ candle_of-cons o k.trade (trades rest))
          (run-Keeps b rest first s (call_update k s) goods (omega (arith, good.priced)) start)

    -- The first swap of another bucket
    abbrev pub row_of_bucket : ℕ → OhlcData → OhlcCandle
    row_of_bucket b d = record {
      token_mint = mint;
      network = network;
      interval = interval_name i;
      timestamp = b;
      candle = d;
    }

    record_trade-candles :
        (m : Moment c) (x : Trade) (s : State)
        → (record_trade c t m mint network i x.price x.volume s).candles ≡ s.candles
    unfolding record_trade
    record_trade-candles m x s = elim (Bool-cases m.evals) [ inl e ↦ rw e | inr e ↦ rw e ]

    flush_row :
        (b : ℕ) (d : OhlcData) (k : Call) (s : State)
        → Keeps b d s s
        → t.find (row_key b) s.candles ≡ none
        → nat_beq b (at_bucket k.moment) ≡ false
        → k.moment.connected ≡ true
        → k.moment.reads ≡ true
        → k.moment.stores ≡ true
        → t.find (row_key b) (call_update k s).candles ≡ some (row_of_bucket b d)
    unfolding update_ohlc flush_previous read_bucket
    flush_row b d k s keeps no_row moved on reads stores =
        let d_read =
          read_key-Holds c doc (bucket_key c network mint i b) (last_close_key c network mint i) d
            s.redis keeps.holds in
        let flushed : State = record s {
          candles = flush_finished_bucket t k.moment.stores (row_of_bucket b d) s.candles;
        } in
        rw on (
          rw (keeps.seen, update_ohlc)
            (rw (moved, reads, update_ohlc)
              (rw (d_read, flush_candle)
                (ap (t.find (row_key b)) (record_trade-candles k.moment k.trade flushed)
                  ∙ find-flush_self t k.moment.stores (row_of_bucket b d) s.candles stores
                      no_row))))

    -- A bucket without a candle, and with no row, in which trades with prices come, all answered by
    -- Redis: the first later call for another bucket stores the candle of exactly these trades, where
    -- Redis answers its read and the database its write. The candle opens at the last close, or at the
    -- first price where there is none; this opening price is not 0.
    pub update_ohlc-candle :
        (b : ℕ) (k : Call) (rest : List Call) (later : Call) (s : State)
        → All (IsIn b) (k ∷ rest)
        → 0 < opening k.trade s
        → c.kind (bucket_key c network mint i b) s.redis ≡ absent
        → t.find (row_key b) s.candles ≡ none
        → at_bucket later.moment ≢ b
        → later.moment.connected ≡ true
        → later.moment.reads ≡ true
        → later.moment.stores ≡ true
        → t.find (row_key b) (call_update later (run (k ∷ rest) s)).candles
          ≡ some (row_of_bucket b (candle_of (opening k.trade s) (k.trade ∷ trades rest)))
    update_ohlc-candle b k rest later s good opens none_yet no_row moved on reads stores =
        let keeps = run-Keeps_first b k rest s good opens none_yet in
        let s' = run (k ∷ rest) s in
        let d = candle_of (opening k.trade s) (k.trade ∷ trades rest) in
        flush_row b d later s' (record { seen = keeps.seen; holds = keeps.holds; row = refl })
          (keeps.row ∙ no_row) (ground arith) on reads stores

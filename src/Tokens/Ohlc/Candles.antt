-- ===== src/Tokens/Ohlc/Candles.antt =====
-- ohlc-aggregation.service.ts: the candle of a list of trades, described without Redis, and that the
-- script computes it.
use solsight_api.Prelude.{
  ℕ, ◌+◌, String, false, List, [], ◌∷◌, ◌≡◌, ◌<◌, arith, string_eq, ◌==◌, or_else, min, max,
}
use solsight_api.Tokens.Ohlc.Commands.{OhlcCommands, OhlcDocumented, absent}
use solsight_api.Tokens.Ohlc.{OhlcData, update_script}
use solsight_api.Tokens.Ohlc.Script.{Holds, next, opened, update_script_new, update_script_old}

pub record Trade : Type 0 where
  pub price : ℕ
  pub volume : ℕ

abbrev pub highest : ℕ → List Trade → ℕ
highest o [] = o
highest o (t ∷ ts) = max t.price (highest o ts)

abbrev pub lowest : ℕ → List Trade → ℕ
lowest o [] = o
lowest o (t ∷ ts) = min t.price (lowest o ts)

abbrev pub closing : ℕ → List Trade → ℕ
closing o [] = o
closing o (t ∷ ts) = closing t.price ts

abbrev pub traded : List Trade → ℕ
traded [] = 0
traded (t ∷ ts) = t.volume + traded ts

-- The candle that opens at `o`
abbrev pub candle_of : ℕ → List Trade → OhlcData
candle_of o ts = record {
  open_price = o;
  high = highest o ts;
  low = lowest o ts;
  close = closing o ts;
  volume = traded ts;
}

abbrev pub IsPriced : Trade → Type 0
IsPriced t = 0 < t.price

highest-max : (o p : ℕ) (ts : List Trade) → highest (max o p) ts ≡ max p (highest o ts)
highest-max o p [] = omega arith
highest-max o p (t ∷ ts) = omega (arith, highest-max o p ts)

lowest-min : (o p : ℕ) (ts : List Trade) → lowest (min o p) ts ≡ min p (lowest o ts)
lowest-min o p [] = omega arith
lowest-min o p (t ∷ ts) = omega (arith, lowest-min o p ts)

-- What a trade does to a candle
unfoldable pub after : OhlcData → Trade → OhlcData
after d t = record d {
  high = max d.high t.price;
  low = min d.low t.price;
  close = t.price;
  volume = d.volume + t.volume;
}

unfoldable pub after_all : OhlcData → List Trade → OhlcData
unfolding after
after_all d [] = d
after_all d (t ∷ ts) = after_all (after d t) ts

pub after_all_lem :
    (d : OhlcData) (ts : List Trade)
    → after_all d ts ≡ record d {
      high = highest d.high ts;
      low = lowest d.low ts;
      close = closing d.close ts;
      volume = d.volume + traded ts;
    }
unfolding after_all
after_all_lem d [] = ground arith
after_all_lem d (t ∷ ts) = ground (
  arith,
  after_all_lem (after d t) ts,
  highest-max d.high t.price ts,
  lowest-min d.low t.price ts,
)

next-close :
    (d : OhlcData) (t : Trade)
    → 0 < t.price
    → 0 < d.low
    → next t.price t.volume (record d { close = t.price }) ≡ after d t
unfolding next after
next-close d t pos low = ground arith

next-opened :
    (o : ℕ) (t : Trade)
    → 0 < t.price
    → 0 < o
    → next t.price t.volume (opened o t.price) ≡ candle_of o (t ∷ [])
unfolding next opened
next-opened o t pos low = ground arith

pub candle_of-cons :
    (o : ℕ) (t : Trade) (ts : List Trade)
    → record (candle_of o (t ∷ [])) {
      high = highest (max t.price o) ts;
      low = lowest (min t.price o) ts;
      close = closing t.price ts;
      volume = t.volume + 0 + traded ts;
    }
      ≡ candle_of o (t ∷ ts)
candle_of-cons o t ts = ground (arith, highest-max o t.price ts, lowest-min o t.price ts)

module _ (c : OhlcCommands) (doc : OhlcDocumented c) (key last_key : String) (ttl last_ttl : ℕ)
    (lives : 0 < ttl) (last_lives : 0 < last_ttl) (other : (last_key == key) ≡ false) where
  -- A trade of a bucket that has a candle
  pub Holds-next :
      (d : OhlcData) (t : Trade) (s : c.State)
      → 0 < t.price
      → 0 < d.low
      → Holds c doc key last_key d s
      → Holds c doc key last_key
          (after d t)
          (update_script c key last_key t.price t.volume ttl last_ttl s)
  Holds-next d t s pos low h = rw (← next-close d t pos low) (
      update_script_old c doc key last_key t.price t.volume ttl last_ttl lives last_lives other d s
        h)

  -- The first trade of a bucket
  pub Holds-first :
      (t : Trade) (s : c.State)
      → 0 < t.price
      → 0 < or_else (c.get last_key s) t.price
      → c.kind key s ≡ absent
      → Holds c doc key last_key
          (candle_of (or_else (c.get last_key s) t.price) (t ∷ []))
          (update_script c key last_key t.price t.volume ttl last_ttl s)
  Holds-first t s pos o none_yet = rw (← next-opened (or_else (c.get last_key s) t.price) t pos o) (
      update_script_new c doc key last_key t.price t.volume ttl last_ttl lives last_lives other s
        none_yet)

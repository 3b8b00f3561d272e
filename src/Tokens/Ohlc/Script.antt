-- ===== src/Tokens/Ohlc/Script.antt =====
-- ohlc-aggregation.service.ts: what the script does to the candle under a key.
use solsight_api.Prelude.{
  ℕ, ◌+◌, String, false, ◌||◌, Option, some, List, [], ◌∷◌, ◌≡◌, ◌≢◌, ◌<◌, refl, string_eq, ◌==◌,
  or_else, min, max, ltb, nat_beq, if◌then◌else◌, Bool-cases, inl, inr, eq_self, ◌∙◌,
}
use solsight_api.Tokens.Ohlc.Commands.{OhlcCommands, OhlcDocumented, absent, hash, number}
use solsight_api.Tokens.Ohlc.{OhlcData, open_bucket, raise_high, lower_low, update_script, read_key}

-- A new key, which takes the last close or the price as its open
unfoldable pub opened : ℕ → ℕ → OhlcData
opened o price = record {
  open_price = o;
  high = max o price;
  low = min o price;
  close = price;
  volume = 0;
}

raised : ℕ → OhlcData → OhlcData
raised price d = record d { high = if ltb d.high price then price else d.high }

lowered : ℕ → OhlcData → OhlcData
lowered price d = record d { low = if ltb price d.low || nat_beq d.low 0 then price else d.low }

-- The candle after the script, from the one after `HSET` of the close
unfoldable pub next : ℕ → ℕ → OhlcData → OhlcData
unfolding raised lowered
next price volume d =
    let e = lowered price (raised price d) in record e { volume = e.volume + volume }

module _ (c : OhlcCommands) (doc : OhlcDocumented c) (key last_key : String) where
  -- The state `s` keeps the candle `d` under the key.
  pub record Holds (d : OhlcData) (s : c.State) : Type 0 where
    pub is_hash : c.kind key s ≡ hash
    pub has_open : c.hget key "open" s ≡ some d.open_price
    pub has_high : c.hget key "high" s ≡ some d.high
    pub has_low : c.hget key "low" s ≡ some d.low
    pub has_close : c.hget key "close" s ≡ some d.close
    pub has_volume : c.hget key "volume" s ≡ some d.volume

  -- `HSET` of one field after the other
  abbrev writes : List (String × ℕ) → c.State → c.State
  writes [] s = s
  writes ((f, v) ∷ fs) s = writes fs (c.hset key f v s)

  abbrev final : String → List (String × ℕ) → Option ℕ → Option ℕ
  final g [] before = before
  final g ((f, v) ∷ fs) before = final g fs (if f == g then some v else before)

  kind-hset_self :
      (f : String) (v : ℕ) (s : c.State)
      → c.kind key s ≢ number
      → c.kind key (c.hset key f v s) ≡ hash
  kind-hset_self f v s k = rw (doc.kind-hset key key f v s k, eq_self key)

  kind-writes :
      (fs : List (String × ℕ)) (s : c.State) → c.kind key s ≡ hash → c.kind key (writes fs s) ≡ hash
  kind-writes [] s h = h
  kind-writes ((f, v) ∷ fs) s h =
      kind-writes fs (c.hset key f v s) (kind-hset_self f v s (λ n. cc (rw h at n)))

  hget-writes :
      (g : String) (fs : List (String × ℕ)) (s : c.State)
      → c.kind key s ≢ number
      → c.hget key g (writes fs s) ≡ final g fs (c.hget key g s)
  hget-writes g [] s h = refl
  hget-writes g ((f, v) ∷ fs) s h =
      let now = doc.hget-hset key key f g v s h in
      rw (← rw (eq_self key) at now)
        (hget-writes g fs (c.hset key f v s) (λ n. cc (rw (kind-hset_self f v s h) at n)))

  get-writes :
      (j : String) (fs : List (String × ℕ)) (s : c.State)
      → c.kind key s ≡ hash
      → c.get j (writes fs s) ≡ c.get j s
  get-writes j [] s h = refl
  get-writes j ((f, v) ∷ fs) s h =
      get-writes j fs (c.hset key f v s) (kind-hset_self f v s (λ n. cc (rw h at n)))
      ∙ doc.get-hset key j f v s (λ n. cc (rw h at n))

  not_number : (d : OhlcData) (s : c.State) → Holds d s → c.kind key s ≢ number
  not_number d s h n = cc (rw h.is_hash at n)

  -- A write of some fields to a key that keeps a candle
  Holds-writes :
      (fs : List (String × ℕ)) (d e : OhlcData) (s : c.State)
      → Holds d s
      → final "open" fs (some d.open_price) ≡ some e.open_price
      → final "high" fs (some d.high) ≡ some e.high
      → final "low" fs (some d.low) ≡ some e.low
      → final "close" fs (some d.close) ≡ some e.close
      → final "volume" fs (some d.volume) ≡ some e.volume
      → Holds e (writes fs s)
  Holds-writes fs d e s h o hi lo cl vo =
      let k = not_number d s h in
      record {
        is_hash = kind-writes fs s h.is_hash;
        has_open = rw (hget-writes "open" fs s k, h.has_open) o;
        has_high = rw (hget-writes "high" fs s k, h.has_high) hi;
        has_low = rw (hget-writes "low" fs s k, h.has_low) lo;
        has_close = rw (hget-writes "close" fs s k, h.has_close) cl;
        has_volume = rw (hget-writes "volume" fs s k, h.has_volume) vo;
      }

  Holds-open_bucket :
      (price : ℕ) (s : c.State)
      → c.kind key s ≡ absent
      → Holds
          (opened (or_else (c.get last_key s) price) price)
          (c.hset key "close" price (open_bucket c key last_key price s))
  unfolding open_bucket opened
  Holds-open_bucket price s none_yet =
      let o = or_else (c.get last_key s) price in
      let fs : List (String × ℕ) =
        ("open", o)
        ∷ ("high", max o price)
        ∷ ("low", min o price)
        ∷ ("volume", 0)
        ∷ ("close", price)
        ∷ [] in
      let free : c.kind key s ≢ number = λ n. cc (rw none_yet at n) in
      rw (none_yet, open_bucket)
        (record {
          is_hash =
              kind-writes
                (("high", max o price)
                  ∷ ("low", min o price)
                  ∷ ("volume", 0)
                  ∷ ("close", price)
                  ∷ [])
                (c.hset key "open" o s) (kind-hset_self "open" o s free);
          has_open = hget-writes "open" fs s free;
          has_high = hget-writes "high" fs s free;
          has_low = hget-writes "low" fs s free;
          has_close = hget-writes "close" fs s free;
          has_volume = hget-writes "volume" fs s free;
        })

  Holds-raise_high :
      (price : ℕ) (d : OhlcData) (s : c.State)
      → Holds d s
      → Holds (raised price d) (raise_high c key price s)
  unfolding raise_high raised
  Holds-raise_high price d s h = elim (Bool-cases (ltb d.high price)) [
    | inl up ↦
        rw (h.has_high, raise_high)
          (rw up (
            Holds-writes (("high", price) ∷ []) d (record d { high = price }) s h refl refl refl
              refl refl))
    | inr same ↦ rw (h.has_high, raise_high) (rw same h)
  ]

  Holds-lower_low :
      (price : ℕ) (d : OhlcData) (s : c.State)
      → Holds d s
      → Holds (lowered price d) (lower_low c key price s)
  unfolding lower_low lowered
  Holds-lower_low price d s h = elim (Bool-cases (ltb price d.low || nat_beq d.low 0)) [
    | inl down ↦
        rw (h.has_low, lower_low)
          (rw down (
            Holds-writes (("low", price) ∷ []) d (record d { low = price }) s h refl refl refl refl
              refl))
    | inr same ↦ rw (h.has_low, lower_low) (rw same h)
  ]

  Holds-hincrbyfloat :
      (volume : ℕ) (d : OhlcData) (s : c.State)
      → Holds d s
      → Holds (record d { volume = d.volume + volume }) (c.hincrbyfloat key "volume" volume s)
  Holds-hincrbyfloat volume d s h =
      rw (doc.hincr_lem key "volume" volume s (not_number d s h), h.has_volume)
        (Holds-writes (("volume", d.volume + volume) ∷ []) d
          (record d { volume = d.volume + volume }) s h refl refl refl refl refl)

  Holds-expire :
      (k : String) (n : ℕ) (d : OhlcData) (s : c.State)
      → 0 < n
      → Holds d s
      → Holds d (c.expire k n s)
  Holds-expire k n d s pos h = record {
    is_hash = doc.kind-expire k key n s pos ∙ h.is_hash;
    has_open = doc.hget-expire k key "open" n s pos ∙ h.has_open;
    has_high = doc.hget-expire k key "high" n s pos ∙ h.has_high;
    has_low = doc.hget-expire k key "low" n s pos ∙ h.has_low;
    has_close = doc.hget-expire k key "close" n s pos ∙ h.has_close;
    has_volume = doc.hget-expire k key "volume" n s pos ∙ h.has_volume;
  }

  Holds-set :
      (price : ℕ) (d : OhlcData) (s : c.State)
      → (last_key == key) ≡ false
      → Holds d s
      → Holds d (c.set last_key price s)
  Holds-set price d s other h =
      let ne : last_key ≢ key = λ q. cc (rw (q, eq_self key) at other) in
      record {
        is_hash = doc.kind-set last_key key price s ∙ rw other h.is_hash;
        has_open = doc.hget-set last_key key "open" price s ne ∙ h.has_open;
        has_high = doc.hget-set last_key key "high" price s ne ∙ h.has_high;
        has_low = doc.hget-set last_key key "low" price s ne ∙ h.has_low;
        has_close = doc.hget-set last_key key "close" price s ne ∙ h.has_close;
        has_volume = doc.hget-set last_key key "volume" price s ne ∙ h.has_volume;
      }

  module _ (price volume ttl last_ttl : ℕ) (lives : 0 < ttl) (last_lives : 0 < last_ttl)
      (other : (last_key == key) ≡ false) where
    finished :
        (d : OhlcData) (s : c.State)
        → Holds d s
        → Holds (next price volume d) (
            c.expire last_key last_ttl (
              c.set last_key price (
                c.expire key ttl (
                  c.hincrbyfloat key "volume" volume
                    (lower_low c key price (raise_high c key price s))))))
    unfolding next
    finished d s h =
        let e = lowered price (raised price d) in
        let f = record e { volume = e.volume + volume } in
        let s3 = lower_low c key price (raise_high c key price s) in
        let s4 = c.expire key ttl (c.hincrbyfloat key "volume" volume s3) in
        Holds-expire last_key last_ttl f (c.set last_key price s4) last_lives (
          Holds-set price f s4 other (
            Holds-expire key ttl f (c.hincrbyfloat key "volume" volume s3) lives (
              Holds-hincrbyfloat volume e s3 (
                Holds-lower_low price (raised price d) (raise_high c key price s)
                  (Holds-raise_high price d s h)))))

    pub update_script_old :
        (d : OhlcData) (s : c.State)
        → Holds d s
        → Holds
            (next price volume (record d { close = price }))
            (update_script c key last_key price volume ttl last_ttl s)
    unfolding update_script open_bucket
    update_script_old d s h =
        rw (h.is_hash, update_script, open_bucket)
          (finished (record d { close = price }) (c.hset key "close" price s)
            (Holds-writes (("close", price) ∷ []) d (record d { close = price }) s h refl refl refl
              refl refl))

    pub update_script_new :
        (s : c.State)
        → c.kind key s ≡ absent
        → Holds
            (next price volume (opened (or_else (c.get last_key s) price) price))
            (update_script c key last_key price volume ttl last_ttl s)
    unfolding update_script
    update_script_new s none_yet =
        finished (opened (or_else (c.get last_key s) price) price)
          (c.hset key "close" price (open_bucket c key last_key price s))
          (Holds-open_bucket price s none_yet)

    pub get-update_script :
        (s : c.State)
        → c.get last_key (update_script c key last_key price volume ttl last_ttl s) ≡ some price
    unfolding update_script
    get-update_script s =
        let s4 : c.State = c.expire key ttl (
          c.hincrbyfloat key "volume" volume (
            lower_low c key price (
              raise_high c key price
                (c.hset key "close" price (open_bucket c key last_key price s))))) in
        doc.get-expire last_key last_key last_ttl (c.set last_key price s4) last_lives
        ∙ doc.get-set last_key last_key price s4
        ∙ rw (eq_self last_key)

  pub read_key-Holds : (d : OhlcData) (s : c.State) → Holds d s → read_key c key s ≡ some d
  unfolding read_key
  read_key-Holds d s h =
      rw (h.is_hash, read_key) (rw (h.has_open, h.has_high, h.has_low, h.has_close, h.has_volume))

-- ===== src/Tokens/Ohlc/Separation.antt =====
-- ohlc-aggregation.service.ts: the keys of a candle differ, and so do the rows of two buckets.
use solsight_api.Prelude.{
  ℕ, String, Bool, true, false, none, some, ◌≡◌, ◌≢◌, ◌<◌, refl, arith, sym, ap, string_eq, ◌==◌,
  nat_beq, ◌∙◌, Table, ◌&&◌, not, is_some, eq→≡, Bool-cases, inl, inr,
}
use solsight_api.Prelude.Text.{◌⊕◌, strip_prefix, strip_prefix-append}
use solsight_api.Tokens.Ohlc.Commands.{OhlcCommands, OhlcDocumented}
use solsight_api.Tokens.Ohlc.{
  OhlcInterval, ten_seconds, one_minute, five_minutes, ohlc_interval_ttl, ohlc_last_close_ttl,
  interval_name, OhlcCandle, candle_key, CandleKey, bucket_key, last_close_key,
  flush_finished_bucket,
}

pub ttl_pos : (i : OhlcInterval) → 0 < ohlc_interval_ttl i
ttl_pos ten_seconds = omega arith
ttl_pos one_minute = omega arith
ttl_pos five_minutes = omega arith

pub last_ttl_pos : (i : OhlcInterval) → 0 < ohlc_last_close_ttl i
last_ttl_pos ten_seconds = omega arith
last_ttl_pos one_minute = omega arith
last_ttl_pos five_minutes = omega arith

none-ne-some : {A : Type 0} {a : A} → none ≢ some a
none-ne-some e = cc

pub nat_beq_ne : {a b : ℕ} → nat_beq a b ≡ false → a ≢ b
nat_beq_ne h q = ground arith

append_cancel : (p a b : String) → (p ⊕ a) ≡ (p ⊕ b) → a ≡ b
append_cancel p a b e =
    let x = sym (strip_prefix-append p a) ∙ ap (strip_prefix p) e ∙ strip_prefix-append p b in cc

module _ (t : Table candle_key) (stores : Bool) (row : OhlcCandle) (s : t.State) where
  pub find-flush_ne :
      (k : CandleKey)
      → candle_key row ≢ k
      → t.find k (flush_finished_bucket t stores row s) ≡ t.find k s
  unfolding flush_finished_bucket
  find-flush_ne k ne = elim (Bool-cases (stores && not (is_some (t.find (candle_key row) s)))) [
    | inl stored ↦ rw stored (t.find-save_ne k row s ne)
    | inr ignored ↦ rw ignored
  ]

  pub find-flush_self :
      stores ≡ true
      → t.find (candle_key row) s ≡ none
      → t.find (candle_key row) (flush_finished_bucket t stores row s) ≡ some row
  unfolding flush_finished_bucket
  find-flush_self e f = rw (e, f) (t.find-save_self (candle_key row) row s refl)

module _ (c : OhlcCommands) (doc : OhlcDocumented c) where
  pub keys_differ :
      (network mint : String) (i : OhlcInterval) (b : ℕ)
      → (last_close_key c network mint i == bucket_key c network mint i b) ≡ false
  unfolding last_close_key bucket_key
  keys_differ network mint i b =
      elim (Bool-cases (last_close_key c network mint i == bucket_key c network mint i b)) [
        | inr e ↦ e
        | inl same ↦
            let q = eq→≡ _ _ same in
            let q1 = append_cancel "ohlc:" _ _ q in
            let q2 = append_cancel network _ _ q1 in
            let q3 = append_cancel ":" _ _ q2 in
            let q4 = append_cancel mint _ _ q3 in
            let q5 = append_cancel ":" _ _ q4 in
            let q6 = append_cancel (interval_name i) _ _ q5 in
            let q7 = append_cancel ":" "last_close" (c.text b) q6 in
            absurd
              (none-ne-some (sym doc.to_number_word ∙ ap c.to_number q7 ∙ doc.to_number-text b))
      ]

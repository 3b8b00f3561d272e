-- ===== src/Tokens/Prices/Slots.antt =====
-- token-price.service.ts: the order of the slots over any sequence of writes.
use solsight_api.Prelude.{
  ℕ, String, Bool, true, false, ◌&&◌, Option, none, some, List, [], ◌∷◌, ◌≡◌, ◌≢◌, refl, sym, ◌∙◌,
  ap, arith, max, ltb, or_else, string_eq, lookup, Option-cases, Bool-cases, inl, inr,
  if◌then◌else◌,
}
use solsight_api.Cluster.{Cluster}
use solsight_api.Redis.Scripts.{Commands, Documented, KeyType, hash, other_type, written}
use solsight_api.Tokens.Prices.{
  Numbers, TokenPriceSetInput, token_price_latest_key, price_ttl_s, fresh_min_ttl_s, clear_foreign,
  is_stale, is_hash, at_least, upsert_latest_price, rehydrate_latest_price, set_price,
  rehydrate_redis_price, source_name, TokenPriceSource,
}

module _ (c : Commands) (num : Numbers) where
  -- The slot that a script reads, 0 where there is none
  abbrev pub slot_in : Option String → ℕ
  slot_in none = 0
  slot_in (some raw) = or_else (num.to_number raw) 0

  abbrev pub stored_slot : String → c.State → ℕ
  stored_slot key s = slot_in (c.hget key "slot" s)

module _ (c : Commands) (num : Numbers) (cluster : Cluster) (mint : String) where
  -- What the callers do with the price of one token, each with whether Redis answers
  pub data Write : Type 0 where
    sets :
        (answers : Bool) (price_usd price_native : num.Number) (slot : ℕ)
        (source : TokenPriceSource)
        → Write
    rehydrates : (answers : Bool) (price_usd : num.Number) → Write

  unfoldable pub write : Write → c.State → c.State
  write (sets answers price_usd price_native slot source) s =
      (set_price c num answers
        (record {
          cluster = cluster;
          mint = mint;
          price_usd = price_usd;
          price_native = price_native;
          slot = slot;
          source = source;
        })
        s).1
  write (rehydrates answers price_usd) s =
      rehydrate_redis_price c num answers cluster mint price_usd s

  unfoldable pub writes : List Write → c.State → c.State
  writes [] s = s
  writes (w ∷ ws) s = writes ws (write w s)

  -- The highest slot among the writes with valid prices that Redis answers, and `n`
  abbrev pub latest : List Write → ℕ → ℕ
  latest [] n = n
  latest (sets answers price_usd price_native slot source ∷ ws) n =
      let accepted =
        num.is_valid_write_price price_usd && num.is_valid_write_price price_native && answers in
      latest ws (if accepted then max slot n else n)
  latest (rehydrates answers price_usd ∷ ws) n = latest ws n

module _ (c : Commands) (num : Numbers) (doc : Documented c) where
  pub stale_iff : (n : ℕ) (raw : Option String) → is_stale c num n raw ≡ ltb n (slot_in c num raw)
  stale_iff n none = ground arith
  stale_iff n (some raw) = elim (Option-cases (num.to_number raw)) [
    | inl e ↦ rw e (ground arith)
    | inr (m, e) ↦ rw (e, is_stale)
  ]

  hash_hset_expire :
      (key : String) (fs : List (String × String)) (s : c.State)
      → c.type_of key s ≢ other_type
      → (c.type_of key (c.expire key price_ttl_s (c.hset key fs s)) ≡ hash)
        × (c.hget key "slot" (c.expire key price_ttl_s (c.hset key fs s))
            ≡ written (lookup "slot" fs) (c.hget key "slot" s))
  hash_hset_expire key fs s own = (
    doc.type-expire key price_ttl_s _ (omega arith) ∙ doc.type-hset key fs s own,
    doc.hget-expire key "slot" price_ttl_s _ (omega arith) ∙ doc.hget-hset key "slot" fs s own,
  )

  pub clear_own :
      (key : String) (s : c.State) → c.type_of key s ≢ other_type → clear_foreign c num key s ≡ s
  unfolding clear_foreign
  clear_own key s own = ground arith

  own_hash : {t : KeyType} → t ≡ hash → t ≢ other_type
  own_hash e q = cc

  slot_kept :
      (raw : Option String) → or_else (num.to_number (or_else raw "0")) 0 ≡ slot_in c num raw
  slot_kept none = rw num.to_number_zero
  slot_kept (some raw) = refl

  upsert_lem :
      (key : String) (n : ℕ) (usd native source : String) (s : c.State)
      → c.type_of key s ≢ other_type
      → let s' = (upsert_latest_price c num key n price_ttl_s usd native source s).1 in
        (c.type_of key s' ≢ other_type)
        × (stored_slot c num key s' ≡ max n (stored_slot c num key s))
  unfolding upsert_latest_price lookup
  upsert_lem key n usd native source s own =
      let fs : List (String × String) =
        ("price_usd", usd)
        ∷ ("price_native", native)
        ∷ ("slot", num.slot_text n)
        ∷ ("source", source)
        ∷ [] in
      let (typed, slot) = hash_hset_expire key fs s own in
      rw (clear_own key s own, stale_iff n (c.hget key "slot" s))
        (elim (Bool-cases (ltb n (stored_slot c num key s))) [
          | inl stale ↦ rw stale (own, ground arith)
          | inr newer ↦
              rw newer (own_hash typed, rw slot (rw num.to_number-slot_text (ground arith)))
        ])

  rehydrate_lem :
      (key usd : String) (s : c.State)
      → c.type_of key s ≢ other_type
      → let s' = (rehydrate_latest_price c num key fresh_min_ttl_s price_ttl_s usd s).1 in
        (c.type_of key s' ≢ other_type) × (stored_slot c num key s' ≡ stored_slot c num key s)
  unfolding rehydrate_latest_price lookup
  rehydrate_lem key usd s own =
      let fs : List (String × String) =
        ("price_usd", usd)
        ∷ ("price_native", or_else (c.hget key "price_native" s) "0")
        ∷ ("slot", or_else (c.hget key "slot" s) "0")
        ∷ ("source", "reference-sync")
        ∷ [] in
      let (typed, slot) = hash_hset_expire key fs s own in
      rw (clear_own key s own)
        (elim (Bool-cases (is_hash (c.type_of key s) && at_least fresh_min_ttl_s (c.ttl key s))) [
          | inl fresh ↦ rw fresh (own, refl)
          | inr old ↦ rw old (own_hash typed, rw slot (slot_kept (c.hget key "slot" s)))
        ])

  module _ (cluster : Cluster) (mint : String) where
    abbrev key_here : String
    key_here = token_price_latest_key cluster mint

    pub sets_lem :
        (answers : Bool) (p : TokenPriceSetInput c num) (s : c.State)
        → let key = token_price_latest_key p.cluster p.mint in
          let accepted =
            num.is_valid_write_price p.price_usd
            && num.is_valid_write_price p.price_native
            && answers in
          c.type_of key s ≢ other_type
          → (c.type_of key (set_price c num answers p s).1 ≢ other_type)
            × (stored_slot c num key (set_price c num answers p s).1 ≡ (
                if accepted then max p.slot (stored_slot c num key s) else stored_slot c num key s))
    unfolding set_price
    sets_lem answers p s own =
        elim (Bool-cases (
          num.is_valid_write_price p.price_usd
          && num.is_valid_write_price p.price_native
          && answers)) [
            | inl taken ↦ rw taken (
                upsert_lem (token_price_latest_key p.cluster p.mint) p.slot (num.text p.price_usd)
                  (num.text p.price_native) (source_name p.source) s own)
            | inr rejected ↦ rw rejected (own, refl)
          ]

    write_lem :
        (w : Write c num cluster mint) (s : c.State)
        → c.type_of key_here s ≢ other_type
        → (c.type_of key_here (write c num cluster mint w s) ≢ other_type)
          × (stored_slot c num key_here (write c num cluster mint w s)
              ≡ latest c num cluster mint (w ∷ []) (stored_slot c num key_here s))
    unfolding write rehydrate_redis_price
    write_lem (sets answers usd native slot source) s own = sets_lem answers _ s own
    write_lem (rehydrates true usd) s own = rehydrate_lem key_here (num.text usd) s own
    write_lem (rehydrates false usd) s own = (own, refl)

    latest-cons :
        (w : Write c num cluster mint) (ws : List (Write c num cluster mint)) (n : ℕ)
        → latest c num cluster mint (w ∷ ws) n
          ≡ latest c num cluster mint ws (latest c num cluster mint (w ∷ []) n)
    latest-cons (sets answers usd native slot source) ws n = refl
    latest-cons (rehydrates answers usd) ws n = refl

    -- Whatever is written to the price of a token and in whatever order it arrives, the stored slot
    -- is the highest of the slot at the start and those of the writes with valid prices that Redis
    -- answers; a rehydration never moves it.
    pub writes-latest :
        (ws : List (Write c num cluster mint)) (s : c.State)
        → c.type_of key_here s ≢ other_type
        → stored_slot c num key_here (writes c num cluster mint ws s)
          ≡ latest c num cluster mint ws (stored_slot c num key_here s)
    unfolding writes
    writes-latest [] s own = refl
    writes-latest (w ∷ ws) s own =
        let (own', slot) = write_lem w s own in
        writes-latest ws (write c num cluster mint w s) own'
        ∙ (ap (latest c num cluster mint ws) slot
            ∙ sym (latest-cons w ws (stored_slot c num key_here s)))

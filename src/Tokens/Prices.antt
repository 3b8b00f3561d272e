-- ===== src/Tokens/Prices.antt =====
-- tokens/services/token-price.service.ts: the latest price of a token in Redis, and the two scripts
-- that write it. Numbers are a parameter, with the text that stands for them in a hash.
pub mod Slots
pub mod Repeats
pub mod Reading
pub mod Server
use solsight_api.Prelude.{
  ℕ, ◌-◌, ◌*◌, String, Bool, true, false, ◌&&◌, not, Option, none, some, List, [], ◌∷◌, map, keep,
  is_some, or_else, ltb, leb, string_eq, lookup, insert, if◌then◌else◌, ◌≡◌,
}
use solsight_api.Prelude.Text.{◌⊕◌, is_blank}
use solsight_api.Cluster.{Cluster, cluster_name}
use solsight_api.Redis.Scripts.{Commands, KeyType, absent, hash, other_type}

-- JavaScript numbers as far as the service reads them, and the numerals of Lua
pub record Numbers : Type 1 where
  pub Number : Type 0
  pub zero : Number
  -- `Number.isFinite(price) && price > 0`
  pub is_valid_write_price : Number → Bool
  -- `String(price)` and `parseFloat`, `none` for `NaN`
  pub text : Number → String
  pub parse_float : String → Option Number
  -- `tostring` and `tonumber` in a script
  pub slot_text : ℕ → String
  pub to_number : String → Option ℕ
  pub parse-text : (x : Number) → is_valid_write_price x ≡ true → parse_float (text x) ≡ some x
  pub text_not_blank : (x : Number) → is_blank (text x) ≡ false
  pub to_number_zero : to_number "0" ≡ some 0
  pub to_number-slot_text : (n : ℕ) → to_number (slot_text n) ≡ some n

pub data TokenPriceSource : Type 0 where
  swap indexer_price_update reference_sync : TokenPriceSource

abbrev pub source_name : TokenPriceSource → String
source_name swap = "swap"
source_name indexer_price_update = "indexer-price-update"
source_name reference_sync = "reference-sync"

-- `RedisService.KEYS.TOKEN_PRICE_LATEST`
unfoldable pub token_price_latest_key : Cluster → String → String
token_price_latest_key cluster mint = "price:" ⊕ cluster_name cluster ⊕ ":" ⊕ mint ⊕ ":latest"

abbrev pub price_ttl_s : ℕ
price_ttl_s = 86400

abbrev pub stale_threshold_s : ℕ
stale_threshold_s = 300

abbrev pub fresh_min_ttl_s : ℕ
fresh_min_ttl_s = price_ttl_s - stale_threshold_s

abbrev pub is_hash : KeyType → Bool
is_hash hash = true
is_hash _ = false

abbrev pub at_least : ℕ → Option ℕ → Bool
at_least n none = false
at_least n (some t) = leb n t

module _ (c : Commands) (num : Numbers) where
  pub record TokenPriceSetInput : Type 0 where
    pub cluster : Cluster
    pub mint : String
    pub price_usd : num.Number
    pub price_native : num.Number
    pub slot : ℕ
    pub source : TokenPriceSource

  pub record TokenPriceResult : Type 0 where
    pub price_usd : num.Number
    pub price_change_24h : num.Number
    -- `"redis"`, or else `"db"`
    pub from_redis : Bool

  -- A row of the tokens table, its columns read with `Number(…) || 0`
  pub record TokenRow : Type 0 where
    pub price : num.Number
    pub price_change_24h : num.Number

  -- Both scripts begin by deleting a key of another type.
  abbrev clear : KeyType → String → c.State → c.State
  clear other_type key s = c.del key s
  clear _ key s = s

  unfoldable pub clear_foreign : String → c.State → c.State
  clear_foreign key s = clear (c.type_of key s) key s

  -- `currentSlot and incomingSlot < currentSlot`
  abbrev pub is_stale : ℕ → Option String → Bool
  is_stale incoming none = false
  is_stale incoming (some raw) = elim (num.to_number raw) [
    | none ↦ false
    | some current ↦ ltb incoming current
  ]

  -- `UPSERT_LATEST_PRICE_SCRIPT`
  unfoldable pub upsert_latest_price :
      String → ℕ → ℕ → String → String → String → c.State → Bool × c.State
  upsert_latest_price key incoming_slot ttl price_usd price_native source s =
      let s1 = clear_foreign key s in
      if is_stale incoming_slot (c.hget key "slot" s1) then (false, s1) else (
        true,
        c.expire key ttl (
            c.hset key
              (("price_usd", price_usd)
                ∷ ("price_native", price_native)
                ∷ ("slot", num.slot_text incoming_slot)
                ∷ ("source", source)
                ∷ [])
              s1),
      )

  -- `REHYDRATE_LATEST_PRICE_SCRIPT`
  unfoldable pub rehydrate_latest_price : String → ℕ → ℕ → String → c.State → Bool × c.State
  rehydrate_latest_price key fresh_min_ttl ttl price_usd s =
      let s1 = clear_foreign key s in
      if is_hash (c.type_of key s1) && at_least fresh_min_ttl (c.ttl key s1) then (false, s1) else (
        true,
        c.expire key ttl (
            c.hset key
              (("price_usd", price_usd)
                ∷ ("price_native", or_else (c.hget key "price_native" s1) "0")
                ∷ ("slot", or_else (c.hget key "slot" s1) "0")
                ∷ ("source", "reference-sync")
                ∷ [])
              s1),
      )

  -- `setPrice`. Without a client, or where the call of the script fails (`answers` is `false`),
  -- nothing is written and the answer is `false`.
  unfoldable pub set_price : Bool → TokenPriceSetInput → c.State → Bool × c.State
  set_price answers p s =
      if num.is_valid_write_price p.price_usd && num.is_valid_write_price p.price_native && answers
      then upsert_latest_price (token_price_latest_key p.cluster p.mint) p.slot price_ttl_s
          (num.text p.price_usd) (num.text p.price_native) (source_name p.source) s
      else (false, s)

  unfoldable pub rehydrate_redis_price : Bool → Cluster → String → num.Number → c.State → c.State
  rehydrate_redis_price answers cluster mint price_usd s =
      if answers
      then (rehydrate_latest_price (token_price_latest_key cluster mint) fresh_min_ttl_s price_ttl_s
          (num.text price_usd) s).1
      else s

  -- The price in the hash, if it can be read and is a valid price
  abbrev pub cached_price : Option String → Option num.Number
  cached_price none = none
  cached_price (some raw) = if is_blank raw then none else elim (num.parse_float raw) [
    | none ↦ none
    | some price ↦ if num.is_valid_write_price price then some price else none
  ]

  unfoldable pub get_fresh_redis_price : Bool → Cluster → String → c.State → Option num.Number
  get_fresh_redis_price answers cluster mint s =
      let key = token_price_latest_key cluster mint in
      if answers && at_least fresh_min_ttl_s (c.ttl key s)
      then cached_price (c.hget key "price_usd" s)
      else none

  abbrev pub redis_result : num.Number → TokenPriceResult
  redis_result price = record { price_usd = price; price_change_24h = num.zero; from_redis = true }

  abbrev pub no_price : TokenPriceResult
  no_price = record { price_usd = num.zero; price_change_24h = num.zero; from_redis = false }

  -- The row's price, where it is valid
  abbrev pub row_result : Option TokenRow → Option TokenPriceResult
  row_result none = none
  row_result (some row) =
      if num.is_valid_write_price row.price
      then some (record {
        price_usd = row.price;
        price_change_24h = row.price_change_24h;
        from_redis = false;
      })
      else none

  -- `catalog` is the query of the tokens table.
  module _ (answers : Bool) (catalog : Cluster → String → Option TokenRow) where
    unfoldable pub get_price : Cluster → String → c.State → TokenPriceResult × c.State
    get_price cluster mint s = elim (get_fresh_redis_price answers cluster mint s) [
      | some price ↦ (redis_result price, s)
      | none ↦ elim (row_result (catalog cluster mint)) [
        | some result ↦ (result, rehydrate_redis_price answers cluster mint result.price_usd s)
        | none ↦ (no_price, s)
      ]
    ]

    -- The first loop: the mints with a fresh price in Redis, in the order of their answers
    unfoldable pub add_fresh :
        Cluster
        → c.State
        → List String
        → List (String × TokenPriceResult)
        → List (String × TokenPriceResult)
    add_fresh cluster s [] result = result
    add_fresh cluster s (mint ∷ mints) result =
        let rest = add_fresh cluster s mints in
        elim (get_fresh_redis_price answers cluster mint s) [
          | some price ↦ rest (insert mint (redis_result price) result)
          | none ↦ rest result
        ]

    -- The loop over the rows that the table has for the others, and the writes it starts
    unfoldable pub add_rows :
        Cluster
        → List String
        → List (String × TokenPriceResult) × c.State
        → List (String × TokenPriceResult) × c.State
    add_rows cluster [] acc = acc
    add_rows cluster (mint ∷ mints) (result, s) =
        let rest = add_rows cluster mints in
        elim (row_result (catalog cluster mint)) [
          | some r ↦
              rest (insert mint r result, rehydrate_redis_price answers cluster mint r.price_usd s)
          | none ↦ rest (result, s)
        ]

    -- The last loop: no price at all
    unfoldable pub add_missing :
        List String → List (String × TokenPriceResult) → List (String × TokenPriceResult)
    add_missing [] result = result
    add_missing (mint ∷ mints) result =
        let rest = add_missing mints in
        if is_some (lookup mint result) then rest result else rest (insert mint no_price result)

    unfoldable pub get_prices :
        Cluster → List String → c.State → List (String × TokenPriceResult) × c.State
    get_prices cluster mints s =
        let need_fallback =
          keep (λ mint. not (is_some (get_fresh_redis_price answers cluster mint s))) mints in
        let (result, s') = add_rows cluster need_fallback (add_fresh cluster s mints [], s) in
        (add_missing mints result, s')

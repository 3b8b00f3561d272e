-- ===== src/Tokens/Prices/Reading.antt =====
-- token-price.service.ts: what readers get, and the agreement of the two ways to read.
use text.Mathlib.TextEquality.{eq_iff}
use mathlib.Core.Option
use solsight_api.Prelude.{
  ℕ, leb, String, Bool, true, false, ◌&&◌, not, Option, none, some, List, [], ◌∷◌, ◌≡◌, ◌≢◌, refl,
  ◌∙◌, arith, or_else, is_some, string_eq, lookup, insert, lookup-insert, keep, any, Option-cases,
  Bool-cases, inl, inr, if◌then◌else◌, ◌==◌,
}
use solsight_api.Cluster.{Cluster}
use solsight_api.Redis.Scripts.{Commands, Documented, other_type}
use solsight_api.Tokens.Prices.{
  Numbers, TokenPriceSetInput, TokenPriceResult, TokenRow, rehydrate_redis_price,
  token_price_latest_key, price_ttl_s, clear_foreign, is_stale, upsert_latest_price, set_price,
  source_name, get_fresh_redis_price, cached_price, redis_result, row_result, no_price, get_price,
  add_fresh, add_rows, add_missing, get_prices,
}

module _ (c : Commands) (num : Numbers) where
  cached_text :
      (x : num.Number)
      → num.is_valid_write_price x ≡ true
      → cached_price c num (some (num.text x)) ≡ some x
  cached_text x valid =
      rw (num.text_not_blank x) (rw (num.parse-text x valid, cached_price) (rw valid))

  module _ (doc : Documented c) where
    cleared : (key : String) (s : c.State) → c.type_of key (clear_foreign c num key s) ≢ other_type
    unfolding clear_foreign
    cleared key s q = ground (arith, doc.type-del key s)

    upsert_stored :
        (key : String) (n : ℕ) (usd native source : String) (s : c.State)
        → (upsert_latest_price c num key n price_ttl_s usd native source s).0 ≡ true
        → let s' = (upsert_latest_price c num key n price_ttl_s usd native source s).1 in
          (c.hget key "price_usd" s' ≡ some usd) × (c.ttl key s' ≡ some price_ttl_s)
    unfolding upsert_latest_price lookup
    upsert_stored key n usd native source s stored =
        let s1 = clear_foreign c num key s in
        let own = cleared key s in
        elim (Bool-cases (is_stale c num n (c.hget key "slot" s1))) [
          | inl stale ↦ cc (rw stale at stored)
          | inr newer ↦ rw newer (
            doc.hget-expire key "price_usd" price_ttl_s _ (omega arith)
                ∙ doc.hget-hset key "price_usd" _ s1 own,
            doc.ttl-expire key price_ttl_s _ (omega arith) (doc.type-hset key _ s1 own),
          )
        ]

    -- After a price that `setPrice` reports as stored: a read of any state in which the price of the key
    -- is as the write left it gives this price where the key has at least 86100 seconds left to live, and
    -- none where it has less or is gone; directly after the write it has 86400 seconds, and the read gives
    -- the price.
    pub get_fresh_redis_price-set_price :
        (input : TokenPriceSetInput c num) (s later : c.State)
        → (set_price c num true input s).0 ≡ true
        → let key = token_price_latest_key input.cluster input.mint in
          let written = (set_price c num true input s).1 in
          c.hget key "price_usd" later ≡ c.hget key "price_usd" written
          → (get_fresh_redis_price c num true input.cluster input.mint later
              ≡ (elim (c.ttl key later) [
                | none ↦ none
                | some left ↦ if leb 86100 left then some input.price_usd else none
              ]))
            × (c.ttl key written ≡ some 86400)
            × (get_fresh_redis_price c num true input.cluster input.mint written
                ≡ some input.price_usd)
    unfolding set_price get_fresh_redis_price
    get_fresh_redis_price-set_price input s later stored kept =
        elim (Bool-cases (
          num.is_valid_write_price input.price_usd
          && num.is_valid_write_price input.price_native
          && true)) [
            | inr rejected ↦ cc (rw rejected at stored)
            | inl taken ↦
                let key = token_price_latest_key input.cluster input.mint in
                let (text, ttl) =
                  upsert_stored key input.slot (num.text input.price_usd)
                    (num.text input.price_native) (source_name input.source) s
                    (rw taken at stored) in
                let valid : num.is_valid_write_price input.price_usd ≡ true = ground arith in
                let still : c.hget key "price_usd" later ≡ some (num.text input.price_usd) =
                  (rw taken at kept) ∙ text in
                (
                  elim (Option-cases (c.ttl key later)) [
                    | inl gone ↦ rw gone
                    | inr (left, e) ↦ rw (e, still, cached_text input.price_usd valid)
                  ],
                  rw taken ttl,
                  rw taken (rw (text, ttl) (cached_text input.price_usd valid)),
                )
          ]

  module _ (answers : Bool) (catalog : Cluster → String → Option (TokenRow c num))
      (cluster : Cluster) where
    abbrev over :
        Option (TokenPriceResult c num)
        → Option (TokenPriceResult c num)
        → Option (TokenPriceResult c num)
    over none old = old
    over (some new) old = some new

    abbrev fresh_result : String → c.State → Option (TokenPriceResult c num)
    fresh_result j s =
        Option.map (redis_result c num) (get_fresh_redis_price c num answers cluster j s)

    abbrev has : String → List String → Bool
    has j = any (λ m. m == j)

    lookup-add_fresh :
        (j : String) (s : c.State) (mints : List String)
        (result : List (String × TokenPriceResult c num))
        → lookup j (add_fresh c num answers catalog cluster s mints result)
          ≡ (if has j mints then over (fresh_result j s) (lookup j result) else lookup j result)
    unfolding add_fresh
    lookup-add_fresh j s [] result = refl
    lookup-add_fresh j s (mint ∷ mints) result =
        elim (Option-cases (get_fresh_redis_price c num answers cluster mint s)) [
          | inl e ↦ ground (arith, e, eq_iff mint j, lookup-add_fresh j s mints result)
          | inr (price, e) ↦ ground (
            arith,
            e,
            eq_iff mint j,
            lookup-insert mint j (redis_result c num price) result,
            lookup-add_fresh j s mints (insert mint (redis_result c num price) result),
          )
        ]

    lookup-add_rows :
        (j : String) (mints : List String) (result : List (String × TokenPriceResult c num))
        (s : c.State)
        → lookup j (add_rows c num answers catalog cluster mints (result, s)).0 ≡ (
            if has j mints
            then over (row_result c num (catalog cluster j)) (lookup j result)
            else lookup j result)
    unfolding add_rows
    lookup-add_rows j [] result s = refl
    lookup-add_rows j (mint ∷ mints) result s =
        elim (Option-cases (row_result c num (catalog cluster mint))) [
          | inl e ↦
              rw (e, add_rows) (ground (arith, e, eq_iff mint j, lookup-add_rows j mints result s))
          | inr (r, e) ↦
              rw (e, add_rows)
                (ground (
                  arith,
                  e,
                  eq_iff mint j,
                  lookup-insert mint j r result,
                  lookup-add_rows j mints (insert mint r result)
                      (rehydrate_redis_price c num answers cluster mint r.price_usd s),
                ))
        ]

    lookup-add_missing :
        (j : String) (mints : List String) (result : List (String × TokenPriceResult c num))
        → lookup j (add_missing c num answers catalog mints result) ≡ (
            if has j mints
            then some (or_else (lookup j result) (no_price c num))
            else lookup j result)
    unfolding add_missing
    lookup-add_missing j [] result = refl
    lookup-add_missing j (mint ∷ mints) result = elim (Bool-cases (is_some (lookup mint result))) [
      | inl there ↦ ground (arith, there, eq_iff mint j, lookup-add_missing j mints result)
      | inr free ↦ ground (
        arith,
        free,
        eq_iff mint j,
        lookup-insert mint j (no_price c num) result,
        lookup-add_missing j mints (insert mint (no_price c num) result),
      )
    ]

    has-keep :
        (j : String) (p : String → Bool) (mints : List String)
        → has j (keep p mints) ≡ (if p j then has j mints else false)
    has-keep j p [] = ground arith
    has-keep j p (mint ∷ mints) = ground (arith, eq_iff mint j, has-keep j p mints)

    get_price_lem :
        (j : String) (s : c.State)
        → (get_price c num answers catalog cluster j s).0
          ≡ or_else
              (fresh_result j s)
              (or_else (row_result c num (catalog cluster j)) (no_price c num))
    unfolding get_price
    get_price_lem j s = elim (Option-cases (get_fresh_redis_price c num answers cluster j s)) [
      | inr (price, e) ↦ rw (e, get_price)
      | inl e ↦
          rw (e, get_price)
            (elim (Option-cases (row_result c num (catalog cluster j))) [
              | inl f ↦ rw (f, get_price)
              | inr (r, f) ↦ rw (f, get_price)
            ])
    ]

    nothing : (j : String) → lookup {V = TokenPriceResult c num} j [] ≡ none
    unfolding lookup
    nothing j = refl

    -- For each mint that is asked for, the batch gives what the single query gives on the same state.
    pub get_prices-get_price :
        (j : String) (mints : List String) (s : c.State)
        → any (λ m. m == j) mints ≡ true
        → lookup j (get_prices c num answers catalog cluster mints s).0
          ≡ some (get_price c num answers catalog cluster j s).0
    unfolding get_prices
    get_prices-get_price j mints s asked =
        let need =
          keep (λ m. not (is_some (get_fresh_redis_price c num answers cluster m s))) mints in
        let found = add_fresh c num answers catalog cluster s mints [] in
        rw
          (
            lookup-add_missing j mints (add_rows c num answers catalog cluster need (found, s)).0,
            asked,
          )
          (rw
            (
              lookup-add_rows j need found s,
              has-keep j (λ m. not (is_some (get_fresh_redis_price c num answers cluster m s)))
                  mints,
              lookup-add_fresh j s mints [],
              asked,
              get_price_lem j s,
              nothing j,
            )
            (elim (Option-cases (get_fresh_redis_price c num answers cluster j s)) [
              | inl e ↦ rw e (elim (Option-cases (row_result c num (catalog cluster j))) [
                | inl f ↦ rw f
                | inr (r, f) ↦ rw f
              ])
              | inr (price, e) ↦ rw e
            ]))

-- ===== src/Tokens/Tests.antt =====
-- modules/tokens: the theorems at concrete inputs.
use solsight_api.Prelude.{
  insert, false, String, true, Option, none, some, List, [], ◌∷◌, ok, lookup, string_eq, ◌≡◌, refl,
}
use solsight_api.Prelude.Text.{includes}
use solsight_api.Cluster.{Cluster, mainnet, devnet, valid_cluster}
use solsight_api.Tokens.HolderTracking.{
  Tracking, TrackedMintState, fresh_state, join_begin, untrack_begin, untrack_end,
}
use solsight_api.Tokens.HolderTracking.Entries.{IsKept}
use solsight_api.Tokens.HolderTracking.Sequential.{Turn, joins, leaves, fires, turns, turns-IsKept}
use solsight_api.Tokens.HolderTracking.Races.{join_before-untrack_end}
use solsight_api.Tokens.Prices.{
  TokenRow, token_price_latest_key, set_price, swap, get_price, get_prices, get_fresh_redis_price,
  upsert_latest_price, clear_foreign, TokenPriceSetInput,
}
use solsight_api.Tokens.Prices.Slots.{writes-latest, sets, rehydrates, writes, stored_slot, Write}
use solsight_api.Tokens.Prices.Reading.{get_fresh_redis_price-set_price, get_prices-get_price}
use solsight_api.Tokens.Prices.Server.{server, server-Documented, unary_numbers}
use solsight_api.Tokens.Rooms.{create, parse, is_valid}
use solsight_api.Tokens.Rooms.Roundtrip.{parse-create}

parse-create_example :
    parse "priceOHLC:devnet:So11:1m"
    ≡ ok (record {
      domain = "priceOHLC";
      cluster = devnet;
      resource = some "So11";
      interval = some "1m";
    })
unfolding valid_cluster create includes is_valid lookup
parse-create_example =
    parse-create
      (record { domain = "priceOHLC"; cluster = "devnet"; resource = "So11"; interval = "1m" })
      "priceOHLC:devnet:So11:1m" devnet refl refl

-- Two swaps that arrive in the wrong order, with a rehydration between them
abbrev late_swap : List (Write server unary_numbers devnet "So11")
late_swap =
    sets true 7 1 5 swap ∷ rehydrates true 9 ∷ sets true 6 1 3 swap ∷ sets true 0 1 8 swap ∷ []

writes-latest_example :
    stored_slot server unary_numbers
      (token_price_latest_key devnet "So11")
      (writes server unary_numbers devnet "So11" late_swap [])
    ≡ 5
unfolding lookup
writes-latest_example =
    writes-latest server unary_numbers server-Documented devnet "So11" late_swap [] (λ q. cc)

abbrev first_swap : TokenPriceSetInput server unary_numbers
first_swap = record {
  cluster = devnet;
  mint = "So11";
  price_usd = 7;
  price_native = 1;
  slot = 5;
  source = swap;
}

abbrev written_keys : server.State
written_keys = (set_price server unary_numbers true first_swap []).1

-- The key with less than a day to live
abbrev aged_keys : server.State
aged_keys = server.expire (token_price_latest_key devnet "So11") 5 written_keys

get_fresh_redis_price-set_price_example :
    (get_fresh_redis_price server unary_numbers true devnet "So11" aged_keys ≡ none)
    × (server.ttl (token_price_latest_key devnet "So11") written_keys ≡ some 86400)
    × (get_fresh_redis_price server unary_numbers true devnet "So11" written_keys ≡ some 7)
unfolding set_price upsert_latest_price clear_foreign lookup insert token_price_latest_key
get_fresh_redis_price-set_price_example =
    get_fresh_redis_price-set_price server unary_numbers server-Documented first_swap [] aged_keys
      refl refl

-- A catalog that prices every token of the main network at 4
abbrev flat : Cluster → String → Option (TokenRow server unary_numbers)
flat mainnet mint = some (record { price = 4; price_change_24h = 0 })
flat devnet mint = none

get_prices-get_price_example :
    lookup "A" (get_prices server unary_numbers true flat mainnet ("B" ∷ "A" ∷ "A" ∷ []) []).0
    ≡ some (get_price server unary_numbers true flat mainnet "A" []).0
get_prices-get_price_example =
    get_prices-get_price server unary_numbers true flat mainnet "A" ("B" ∷ "A" ∷ "A" ∷ []) [] refl

abbrev nothing_tracked : Tracking
nothing_tracked = record { tracked_mints = []; timers = []; next_object = 4; next_timer = 0 }

abbrev quiet_mint : TrackedMintState
quiet_mint = record (fresh_state 1) { is_tracked = true; untrack_timer = some 0 }

abbrev one_tracked : Tracking
one_tracked = record nothing_tracked {
  tracked_mints = ("devnet:M", quiet_mint) ∷ [];
  timers = (0, "devnet:M") ∷ [];
}

join_before-untrack_end_example :
    let s = one_tracked in
    let (s1, sends) = join_begin "devnet:M" s in
    (untrack_begin "devnet:M" s ≡ some quiet_mint.object)
    × (sends ≡ false)
    × (lookup "devnet:M" (untrack_end "devnet:M" s1).tracked_mints ≡ none)
unfolding lookup
join_before-untrack_end_example =
    join_before-untrack_end "devnet:M" one_tracked quiet_mint refl refl

-- Two subscribers come and go, the timer of the mint fires, and a third comes.
abbrev visits : List Turn
visits =
    joins devnet "M" true
    ∷ joins devnet "M" false
    ∷ leaves devnet "M"
    ∷ leaves devnet "M"
    ∷ fires devnet "M" true 0
    ∷ joins devnet "M" false
    ∷ []

turns-IsKept_example : IsKept (turns visits (nothing_tracked, [])).0
unfolding lookup
turns-IsKept_example = turns-IsKept visits nothing_tracked [] (λ key st e. cc)

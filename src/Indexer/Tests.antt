-- ===== src/Indexer/Tests.antt =====
-- stream-consumer.service.ts at a concrete input: a purchase at the price 7, reported twice.
use solsight_api.Prelude.{true, false, none, some, [], ◌∷◌, ◌≡◌, refl, string_eq, lookup}
use solsight_api.Cluster.{devnet}
use solsight_api.Tokens.Prices.{set_price, upsert_latest_price, clear_foreign}
use solsight_api.Tokens.Prices.Server.{server, server-Documented, unary_numbers}
use solsight_api.Indexer.{
  SwapEvent, MarketPriceEvent, buy, Store, get_token_mint_from_swap, price_input, handle_swap,
}
use solsight_api.Indexer.Redelivery.{handle_swap_repeated}

abbrev purchase : SwapEvent server unary_numbers
purchase = record {
  network = some devnet;
  timestamp = 1700000000;
  slot = 5;
  signature = "sig";
  maker = "maker";
  direction = buy;
  token_in = record { mint = "So11"; amount_ui = 1; is_quote = true };
  token_out = record { mint = "Bonk"; amount_ui = 9; is_quote = false };
  price_native = 1;
  price_usd = some 7;
  fee_amount_ui = none;
}

abbrev empty_store : Store server unary_numbers
empty_store = record { redis = []; price_events = []; transactions = []; started = [] }

abbrev purchase_event : MarketPriceEvent server unary_numbers
purchase_event = record {
  token_mint = "Bonk";
  network = devnet;
  price = 7;
  slot = purchase.slot;
  timestamp = purchase.timestamp;
  tx_signature = purchase.signature;
}

handle_swap_repeated_example :
    let handled = handle_swap server unary_numbers true (λ cluster mint. none) devnet purchase in
    ((handled (handled empty_store)).transactions ≡ (handled empty_store).transactions)
    × ((handled (handled empty_store)).price_events ≡ purchase_event ∷ purchase_event ∷ [])
unfolding lookup set_price upsert_latest_price clear_foreign get_token_mint_from_swap price_input
handle_swap_repeated_example =
    handle_swap_repeated server unary_numbers true (λ cluster mint. none) devnet purchase
      server-Documented 7 empty_store (λ q. cc) refl refl

-- ===== src/Indexer/Redelivery.antt =====
-- stream-consumer.service.ts: a swap that is reported twice.
use solsight_api.Prelude.{
  String, if◌then◌else◌, Bool, true, false, ◌&&◌, Option, some, List, [], ◌∷◌, ◌++◌, ◌≡◌, ◌≢◌, refl,
  ◌∙◌, ap, arith, ◌==◌, string_eq, any, Bool-cases, inl, inr, eq_self,
}
use mathlib.Core.List.{append_assoc}
use solsight_api.Cluster.{Cluster, cluster_name}
use solsight_api.Redis.Scripts.{Commands, Documented, other_type}
use solsight_api.Tokens.Prices.{Numbers, TokenRow, token_price_latest_key, set_price}
use solsight_api.Tokens.Prices.Repeats.{set_price_again}
use solsight_api.Indexer.{
  SwapEvent, MarketPriceEvent, TransactionInsertRow, Store, get_token_mint_from_swap, positive,
  insert_transaction_ignore, transaction_row, price_input, persist_transaction, persist_price_event,
  has_signature, accept_price_usd, resolve_price_usd, handle_swap,
}

module _ (c : Commands) (num : Numbers) where
  any-append :
      (f : TransactionInsertRow c num → Bool) (r : TransactionInsertRow c num)
      (rows : List (TransactionInsertRow c num))
      → f r ≡ true
      → any f (rows ++ r ∷ []) ≡ true
  any-append f r [] hit = rw hit
  any-append f r (x ∷ rows) hit = let later = any-append f r rows hit in ground arith

  both_narrow :
      (row : TransactionInsertRow c num) (rows : List (TransactionInsertRow c num))
      → any (has_signature c num row.signature) rows ≡ false
      → any
          (λ r.
            has_signature c num row.signature r
            && (cluster_name r.network == cluster_name row.network))
          rows
        ≡ false
  both_narrow row [] unknown = refl
  both_narrow row (r ∷ rows) unknown =
      let later : any (has_signature c num row.signature) rows ≡ false → any _ rows ≡ false =
        both_narrow row rows in
      ground arith

  ignored :
      (network : Cluster) (e : SwapEvent c num) (resolved : Option num.Number)
      (rows : List (TransactionInsertRow c num))
      → any (has_signature c num e.signature) rows ≡ true
      → persist_transaction c num network e resolved rows ≡ rows
  unfolding persist_transaction insert_transaction_ignore transaction_row
  ignored network e resolved rows known =
      let row = transaction_row c num network e resolved in
      elim (Bool-cases (
        any
          (λ r.
            has_signature c num row.signature r
            && (cluster_name r.network == cluster_name row.network))
          rows)) [ inl same ↦ rw same | inr other ↦ rw (other, known) ]

  -- Whatever stands in the table, a transaction of the signature is there after the first report.
  persisted :
      (network : Cluster) (e : SwapEvent c num) (resolved : Option num.Number)
      (rows : List (TransactionInsertRow c num))
      → any (has_signature c num e.signature) (persist_transaction c num network e resolved rows)
        ≡ true
  unfolding persist_transaction insert_transaction_ignore transaction_row
  persisted network e resolved rows =
      let row = transaction_row c num network e resolved in
      elim (Bool-cases (any (has_signature c num e.signature) rows)) [
        | inl known ↦ rw (ignored network e resolved rows known) known
        | inr unknown ↦
            rw (both_narrow row rows unknown, unknown)
              (any-append (has_signature c num e.signature) row rows (eq_self e.signature))
      ]

  module _ (answers : Bool) (catalog : Cluster → String → Option (TokenRow c num))
      (network : Cluster) (e : SwapEvent c num) where
    accept_lem :
        (price : num.Number) (r : c.State)
        → positive c num e.price_usd ≡ some price
        → (set_price c num answers (price_input c num network e price) r).0 ≡ true
        → accept_price_usd c num answers catalog network e r
          ≡ (some price, (set_price c num answers (price_input c num network e price) r).1)
    unfolding accept_price_usd
    accept_lem price r priced stored = rw (accept_price_usd, priced) (rw stored)

    resolve_lem :
        (price : num.Number) (r : c.State)
        → positive c num e.price_usd ≡ some price
        → resolve_price_usd c num answers catalog network e r ≡ (some price, r)
    unfolding resolve_price_usd
    resolve_lem price r priced = rw (resolve_price_usd, priced)

    accepted_lem :
        (price : num.Number) (s : Store c num)
        → positive c num e.price_usd ≡ some price
        → (set_price c num answers (price_input c num network e price) s.redis).0 ≡ true
        → let s' = handle_swap c num answers catalog network e s in
          (s'.redis ≡ (set_price c num answers (price_input c num network e price) s.redis).1)
          × (s'.price_events ≡ persist_price_event c num network e (some price) s.price_events)
    unfolding handle_swap
    accepted_lem price s priced stored =
        rw (accept_lem price s.redis priced stored)
          (ap (λ (x : Option num.Number × c.State). x.1) (resolve_lem price _ priced), refl)

    transactions_twice :
        (s : Store c num)
        → (handle_swap c num answers catalog network e
            (handle_swap c num answers catalog network e s)).transactions
          ≡ (handle_swap c num answers catalog network e s).transactions
    unfolding handle_swap
    transactions_twice s = ignored network e _ _ (persisted network e _ s.transactions)

    -- The event of the price of the swap
    abbrev event_of : num.Number → MarketPriceEvent c num
    event_of price = record {
      token_mint = if e.token_in.is_quote then e.token_out.mint else e.token_in.mint;
      network = network;
      price = price;
      slot = e.slot;
      timestamp = e.timestamp;
      tx_signature = e.signature;
    }

    -- A swap whose price is accepted, at a key that holds no value of another type, reported twice in a row: the second report adds no
    -- transaction, but its price is accepted again and the same price event stands twice behind the earlier ones.
    pub handle_swap_repeated :
        (doc : Documented c) (price : num.Number) (s : Store c num)
        → c.type_of (token_price_latest_key network (get_token_mint_from_swap c num e)) s.redis
          ≢ other_type
        → positive c num e.price_usd ≡ some price
        → (set_price c num answers (price_input c num network e price) s.redis).0 ≡ true
        → let once = handle_swap c num answers catalog network e s in
          let twice = handle_swap c num answers catalog network e once in
          (twice.transactions ≡ once.transactions)
          × (twice.price_events ≡ s.price_events ++ event_of price ∷ event_of price ∷ [])
    unfolding price_input persist_price_event get_token_mint_from_swap
    handle_swap_repeated doc price s own priced stored =
        let input = price_input c num network e price in
        let once = handle_swap c num answers catalog network e s in
        let (redis, events) = accepted_lem price s priced stored in
        let again : (set_price c num answers input once.redis).0 ≡ true =
          rw redis (set_price_again c num doc answers input s.redis own stored) in
        (
          transactions_twice s,
          (accepted_lem price once priced again).1
              ∙ ap (persist_price_event c num network e (some price)) events
              ∙ append_assoc s.price_events (event_of price ∷ []) (event_of price ∷ []),
        )

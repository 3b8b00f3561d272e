-- ===== src/Tokens/Prices/Repeats.antt =====
-- token-price.service.ts: the same write of a price a second time.
use solsight_api.Prelude.{
  String, Bool, true, false, ◌&&◌, not, ◌≡◌, ◌≢◌, sym, ◌∙◌, arith, ℕ, max, ltb, Bool-cases, inl,
  inr, if◌then◌else◌,
}
use solsight_api.Redis.Scripts.{Commands, Documented, other_type}
use solsight_api.Tokens.Prices.{
  Numbers, TokenPriceSetInput, token_price_latest_key, upsert_latest_price, set_price,
}
use solsight_api.Tokens.Prices.Slots.{stored_slot, stale_iff, clear_own, sets_lem}

newest :
    (t : Bool) (n old now : ℕ)
    → (t && not (ltb n old)) ≡ true
    → now ≡ (if t then max n old else old)
    → (t && not (ltb n now)) ≡ true
newest true n old now first e = ground arith
newest false n old now first e = first

module _ (c : Commands) (num : Numbers) (doc : Documented c) (answers : Bool)
    (p : TokenPriceSetInput c num) where
  abbrev price_key : String
  price_key = token_price_latest_key p.cluster p.mint

  abbrev is_taken : Bool
  is_taken =
      num.is_valid_write_price p.price_usd && num.is_valid_write_price p.price_native && answers

  stored_iff :
      (s : c.State)
      → c.type_of price_key s ≢ other_type
      → (set_price c num answers p s).0
        ≡ (is_taken && not (ltb p.slot (stored_slot c num price_key s)))
  unfolding set_price upsert_latest_price
  stored_iff s own = elim (Bool-cases is_taken) [
    | inr rejected ↦ rw rejected
    | inl taken ↦ rw taken (
        rw
          (
            clear_own c num doc price_key s own,
            stale_iff c num doc p.slot (c.hget price_key "slot" s),
          )
          (elim (Bool-cases (ltb p.slot (stored_slot c num price_key s))) [
            | inl stale ↦ rw stale
            | inr newer ↦ rw newer
          ]))
  ]

  -- A write that is accepted is accepted again: its slot is not older than itself.
  pub set_price_again :
      (s : c.State)
      → c.type_of price_key s ≢ other_type
      → (set_price c num answers p s).0 ≡ true
      → (set_price c num answers p (set_price c num answers p s).1).0 ≡ true
  set_price_again s own accepted =
      let (own', slot) = sets_lem c num doc p.cluster p.mint answers p s own in
      let first = stored_iff s own in
      let again = stored_iff (set_price c num answers p s).1 own' in
      again ∙ newest is_taken p.slot _ _ (sym first ∙ accepted) slot

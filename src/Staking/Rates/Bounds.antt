-- ===== src/Staking/Rates/Bounds.antt =====
-- staking-chain.utils.ts and StakingService.selectFallbackValidator: what rounding can lose.
use solsight_api.Prelude.{ℕ, suc, ◌+◌, ◌*◌, ◌/◌, ◌-◌, ◌≤◌, ◌<◌, ◌≡◌, sym, ap, ◌∙◌, zero, arith}
use native.Mathlib.Nat.{
  div-mul-le_self, div-lt_iff_lt-mul, lt-div-mul-add, zero-div, le_of_mul-le-mul_right, zero-mul,
  suc-mul,
}
use solsight_api.Staking.Rates.{pool_tokens_to_lamports, lamports_to_pool_tokens, required_lamports}

tokens_lem :
    (lamports total supply : ℕ)
    → 0 < total
    → lamports_to_pool_tokens lamports total supply ≡ lamports * supply / total
unfolding lamports_to_pool_tokens
tokens_lem zero total supply pos = sym (ap (λ n. n / total) (zero-mul supply) ∙ zero-div total)
tokens_lem (suc n) total supply pos = ground arith

worth_lem :
    (tokens total supply : ℕ)
    → 0 < supply
    → pool_tokens_to_lamports tokens total supply ≡ tokens * total / supply
unfolding pool_tokens_to_lamports
worth_lem zero total supply pos = sym (ap (λ n. n / supply) (zero-mul total) ∙ zero-div supply)
worth_lem (suc n) total supply pos = ground arith

-- Both roundings go down.
worth-le :
    (l p r total supply : ℕ) → 0 < supply → p * total ≤ l * supply → r * supply ≤ p * total → r ≤ l
worth-le l p r total supply pos f g = le_of_mul-le-mul_right (omega (arith, f, g)) pos

required-le :
    (l p total supply : ℕ)
    → 0 < supply
    → p * total ≤ l * supply
    → required_lamports p total supply ≤ l
unfolding required_lamports
required-le l p total supply pos f =
    let below : (p * total + supply - 1) / supply < suc l =
      (div-lt_iff_lt-mul pos).1 (rw suc-mul (omega (arith, f))) in
    ground arith

-- With lamports and tokens in the pool: the pool tokens for an amount of lamports are never worth more
-- than the amount, and less by under one lamport and the worth of one token; and the stake that a
-- validator must have for them is at most the amount.
pub lamports_to_pool_tokens_bounds :
    (lamports total supply : ℕ)
    → 0 < total
    → 0 < supply
    → let tokens = lamports_to_pool_tokens lamports total supply in
      let worth = pool_tokens_to_lamports tokens total supply in
      (worth ≤ lamports)
      × (lamports * supply < worth * supply + supply + total)
      × (required_lamports tokens total supply ≤ lamports)
lamports_to_pool_tokens_bounds lamports total supply has_lamports has_tokens =
    rw (tokens_lem lamports total supply has_lamports) (
      let p = lamports * supply / total in
      let below : p * total ≤ lamports * supply = div-mul-le_self (lamports * supply) total in
      let above : lamports * supply < p * total + total = lt-div-mul-add has_lamports in
      rw (worth_lem p total supply has_tokens) (
        let r = p * total / supply in
        let below' : r * supply ≤ p * total = div-mul-le_self (p * total) supply in
        let above' : p * total < r * supply + supply = lt-div-mul-add has_tokens in
        (
          worth-le lamports p r total supply has_tokens below below',
          omega (arith, below, above, below', above'),
          required-le lamports p total supply has_tokens below,
        )))

-- ===== src/Staking/Rates.antt =====
-- staking-chain.utils.ts: pool tokens and lamports at the rate of the pool. Division rounds down.
pub mod Bounds
use solsight_api.Prelude.{
  ℕ, suc, ◌+◌, ◌*◌, ◌/◌, ◌-◌, ◌≤◌, ◌<◌, ◌≡◌, Bool, true, false, nat_beq, ◌||◌, if◌then◌else◌, arith,
  ltb,
}

unfoldable pub pool_tokens_to_lamports : ℕ → ℕ → ℕ → ℕ
pool_tokens_to_lamports pool_tokens total_lamports pool_token_supply =
    if nat_beq pool_tokens 0 || nat_beq pool_token_supply 0
    then 0
    else pool_tokens * total_lamports / pool_token_supply

unfoldable pub lamports_to_pool_tokens : ℕ → ℕ → ℕ → ℕ
lamports_to_pool_tokens lamports total_lamports pool_token_supply =
    if nat_beq lamports 0 || nat_beq total_lamports 0
    then 0
    else lamports * pool_token_supply / total_lamports

-- The lamports that a validator must have for `pool_tokens` to be burned, rounded up
unfoldable pub required_lamports : ℕ → ℕ → ℕ → ℕ
required_lamports pool_tokens total_lamports pool_token_supply =
    if ltb 0 pool_token_supply
    then (pool_tokens * total_lamports + pool_token_supply - 1) / pool_token_supply
    else pool_tokens

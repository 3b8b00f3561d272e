-- ===== src/Staking/Fallback.antt =====
-- StakingService.selectFallbackValidator: the validator that pays an unstake which the reserve of the
-- pool cannot. `derive_validator_stake_address` hashes its seeds and is a parameter.
pub mod Selection
use solsight_api.Prelude.{
  ℕ, String, Bool, true, false, ◌&&◌, Option, none, some, List, [], ◌∷◌, keep, first, leb, ltb,
  sort_desc, Result, ok, err, if◌then◌else◌,
}
use solsight_api.Staking.Types.{StakingError, no_active_validator, PublicKey}
use solsight_api.Staking.Accounts.{ValidatorListEntryState, StakePoolWithdrawState, is_byte}
use solsight_api.Staking.Rates.{required_lamports}

abbrev pub is_active : ValidatorListEntryState → Bool
is_active v = is_byte 0 v.status && ltb 0 v.active_stake_lamports

abbrev pub active_stake : ValidatorListEntryState → ℕ
active_stake v = v.active_stake_lamports

-- `sorted.find(...) ?? sorted[0]`
unfoldable pub first_covering :
    ℕ → List ValidatorListEntryState → Result StakingError ValidatorListEntryState
first_covering required [] = err no_active_validator
first_covering required (v ∷ vs) =
    elim (first (λ (u : ValidatorListEntryState). leb required u.active_stake_lamports) (v ∷ vs)) [
      | some selected ↦ ok selected
      | none ↦ ok v
    ]

unfoldable pub select_fallback_validator :
    ℕ
    → StakePoolWithdrawState
    → List ValidatorListEntryState
    → Result StakingError ValidatorListEntryState
unfolding first_covering required_lamports sort_desc
select_fallback_validator pool_tokens_to_burn state validators =
    first_covering
      (required_lamports pool_tokens_to_burn state.total_lamports state.pool_token_supply)
      (sort_desc active_stake (keep is_active validators))

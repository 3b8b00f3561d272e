-- ===== src/Staking/Building/Unstake.antt =====
-- StakingService.buildLiquidInstructions: the unstake that the reserve of the pool pays.
use solsight_api.Prelude.{
  ℕ, suc, ◌+◌, ◌*◌, ◌/◌, ◌<◌, ◌≤◌, String, true, false, Option, none, some, List, ◌≡◌, ◌≢◌, sym,
  ◌∙◌, ap, subst, arith, Table, ok, bind_ok, or_throw_ok, guard_ok, ok_inj, or_throw, guard,
  Bool-cases, inl, inr, if◌then◌else◌, ltb, zero,
}
use native.Mathlib.Nat.{mul-zero, zero-div}
use solsight_api.Cluster.{Cluster}
use solsight_api.Staking.Types
use solsight_api.Staking.Types.{
  StakingError, PublicKey, StakePoolCoordinates, Addresses, BuildStakingTransactionDto,
  NativeAccount, native_key,
}
use solsight_api.Staking.Chain.{Web3, AccountInfo, Rpc}
use solsight_api.Staking.Accounts.{
  StakePoolWithdrawState, decode_stake_pool_withdraw_state, decode_validator_list,
}
use solsight_api.Staking.Rates.{pool_tokens_to_lamports, lamports_to_pool_tokens}
use solsight_api.Staking.Rates.Bounds.{lamports_to_pool_tokens_bounds}
use solsight_api.Staking.Fallback.{select_fallback_validator}
use solsight_api.Staking.Instructions.{build_unstake_ix}
use solsight_api.Staking.Bytes.{pubkey_at, read_u64_le}
use solsight_api.Staking.Building.Withdrawal.{require_positive_amount_ok}
use solsight_api.Staking.Building.{
  Built, build_liquid_instructions, build_liquid_unstake, unstake_from_reserve,
  unstake_from_validator, require_positive_amount, needs_fallback, stake_pool_config,
  user_token_account, insert_account,
}

-- Tokens for an amount are only to be had from a pool that has both.
pool_lem :
    (amount total supply : ℕ)
    → ltb 0 (lamports_to_pool_tokens amount total supply) ≡ true
    → (0 < total) × (0 < supply)
unfolding lamports_to_pool_tokens
pool_lem amount total zero some_tokens =
    let product : amount * 0 / total ≡ 0 = ap (λ n. n / total) (mul-zero amount) ∙ zero-div total in
    absurd (ground arith)
pool_lem amount zero (suc supply) some_tokens = absurd (ground arith)
pool_lem amount (suc total) (suc supply) some_tokens = (omega arith, omega arith)

tokens_of :
    (amount total supply : ℕ)
    → 0 < total
    → 0 < supply
    → lamports_to_pool_tokens amount total supply ≡ amount * supply / total
unfolding lamports_to_pool_tokens
tokens_of amount zero supply has_lamports has_tokens = absurd (omega (arith, has_lamports))
tokens_of amount (suc total) zero has_lamports has_tokens = absurd (omega (arith, has_tokens))
tokens_of amount (suc total) (suc supply) has_lamports has_tokens = ground arith

-- Where the totals of the pool stand in its account
reads_lem :
    (bytes : List ℕ) (state : StakePoolWithdrawState)
    → decode_stake_pool_withdraw_state bytes ≡ ok state
    → (read_u64_le bytes 258 ≡ ok state.total_lamports)
      × (read_u64_le bytes 266 ≡ ok state.pool_token_supply)
unfolding decode_stake_pool_withdraw_state
reads_lem bytes state h =
    let (validator_list, _, h1) = bind_ok (pubkey_at bytes 98) _ h in
    let (total, total_read, h2) = bind_ok (read_u64_le bytes 258) _ h1 in
    let (supply, supply_read, h3) = bind_ok (read_u64_le bytes 266) _ h2 in
    let same = ok_inj h3 in
    (
      total_read ∙ ap (λ (x : StakePoolWithdrawState). ok x.total_lamports) same,
      supply_read ∙ ap (λ (x : StakePoolWithdrawState). ok x.pool_token_supply) same,
    )

covers_lem :
    (amount reserve rent : ℕ)
    → needs_fallback amount reserve rent ≡ false
    → rent ≤ reserve
    → amount + rent ≤ reserve
unfolding needs_fallback
covers_lem amount reserve rent enough rented = ground arith

same_row : {o : Option AccountInfo} {x y : AccountInfo} → o ≡ some x → o ≡ some y → x ≡ y
same_row e f = cc

module _ (w : Web3) (sighash : String → String → List ℕ) (a : Addresses)
    (pool : StakePoolCoordinates) (t : Table native_key) (network : Cluster) (rpc : Rpc) where
  named_lem :
      (owner : PublicKey) (tokens : ℕ) (state : StakePoolWithdrawState) (s s' : t.State)
      (built : Built)
      → unstake_from_validator w sighash a pool t network rpc owner tokens state s ≡ ok (built, s')
      → built.native_stake_address ≢ none
  unfolding unstake_from_validator
  named_lem owner tokens state s s' built h =
      let (info, _, h1) =
        bind_ok (or_throw (rpc.get_account_info state.validator_list) Types.no_validator_list) _
          h in
      let (validators, _, h2) = bind_ok (decode_validator_list info.data_bytes) _ h1 in
      let (selected, _, h3) = bind_ok (select_fallback_validator tokens state validators) _ h2 in
      let (s'', _, h4) = bind_ok (insert_account w sighash a pool t network rpc _ s) _ h3 in
      let made = ap (λ (p : Built × t.State). p.0.native_stake_address) (ok_inj h4) in λ q. cc

  -- An unstake that the reserve pays: `asked` is the amount of the request
  pub record PaidByReserve (owner : PublicKey) (asked : Option ℕ) (built : Built)
      (reserve : AccountInfo) : Type 0 where
    pub amount : ℕ
    pub given : asked ≡ some amount
    pub info : AccountInfo
    pub on_chain : rpc.get_account_info pool.stake_pool ≡ some info
    pub total_lamports : ℕ
    pub total_read : read_u64_le info.data_bytes 258 ≡ ok total_lamports
    pub pool_token_supply : ℕ
    pub supply_read : read_u64_le info.data_bytes 266 ≡ ok pool_token_supply
    pub burns :
        built.instruction
        ≡ build_unstake_ix sighash a owner
            (stake_pool_config w sighash a pool t network rpc)
            (user_token_account w sighash a pool t network rpc owner)
            pool
            (amount * pool_token_supply / total_lamports)
            none
    pub fair :
        pool_tokens_to_lamports
          (amount * pool_token_supply / total_lamports)
          total_lamports
          pool_token_supply
        ≤ amount
    pub covered : amount + rpc.rent_exempt_lamports ≤ reserve.lamports

  paid_lem :
      (owner : PublicKey) (amount : ℕ) (state : StakePoolWithdrawState) (s s' : t.State)
      (built : Built) (reserve found : AccountInfo)
      → found.lamports ≡ reserve.lamports
      → let tokens = lamports_to_pool_tokens amount state.total_lamports state.pool_token_supply in
        ltb 0 tokens ≡ true
        → rpc.rent_exempt_lamports ≤ reserve.lamports
        → (if needs_fallback amount found.lamports rpc.rent_exempt_lamports
            then unstake_from_validator w sighash a pool t network rpc owner tokens state s
            else ok (unstake_from_reserve w sighash a pool t network rpc owner tokens s))
          ≡ ok (built, s')
        → built.native_stake_address ≡ none
        → (built.instruction
            ≡ build_unstake_ix sighash a owner
                (stake_pool_config w sighash a pool t network rpc)
                (user_token_account w sighash a pool t network rpc owner)
                pool
                (amount * state.pool_token_supply / state.total_lamports)
                none)
          × (pool_tokens_to_lamports
                (amount * state.pool_token_supply / state.total_lamports)
                state.total_lamports
                state.pool_token_supply
              ≤ amount)
          × (amount + rpc.rent_exempt_lamports ≤ reserve.lamports)
          × (s' ≡ s)
  unfolding unstake_from_reserve
  paid_lem owner amount state s s' built reserve found lam some_tokens rented h5 unnamed =
      let tokens = lamports_to_pool_tokens amount state.total_lamports state.pool_token_supply in
      elim (Bool-cases (needs_fallback amount found.lamports rpc.rent_exempt_lamports)) [
        | inl needs ↦ absurd (named_lem owner tokens state s s' built (rw needs at h5) unnamed)
        | inr enough ↦
            let q = ok_inj (rw enough at h5) in
            let (has_lamports, has_tokens) =
              pool_lem amount state.total_lamports state.pool_token_supply some_tokens in
            let (worth, _, _) =
              lamports_to_pool_tokens_bounds amount state.total_lamports state.pool_token_supply
                has_lamports has_tokens in
            let pays =
              covers_lem amount found.lamports rpc.rent_exempt_lamports enough
                (omega (arith, rented, lam)) in
            let as_made =
              tokens_of amount state.total_lamports state.pool_token_supply has_lamports
                has_tokens in
            (
              sym (ap (λ (x : Built × t.State). x.0.instruction) q)
                  ∙ ap
                      (λ (n : ℕ).
                        build_unstake_ix sighash a owner
                          (stake_pool_config w sighash a pool t network rpc)
                          (user_token_account w sighash a pool t network rpc owner) pool n none)
                      as_made,
              subst
                  (λ (n : ℕ).
                    pool_tokens_to_lamports n state.total_lamports state.pool_token_supply ≤ amount)
                  as_made worth,
              omega (arith, pays, lam),
              sym (ap (λ (x : Built × t.State). x.1) q),
            )
      ]

  unstake_lem :
      (owner : PublicKey) (dto : BuildStakingTransactionDto) (s s' : t.State) (built : Built)
      (reserve : AccountInfo)
      → rpc.get_account_info pool.reserve_stake ≡ some reserve
      → rpc.rent_exempt_lamports ≤ reserve.lamports
      → build_liquid_unstake w sighash a pool t network rpc owner dto s ≡ ok (built, s')
      → built.native_stake_address ≡ none
      → PaidByReserve owner dto.amount_lamports built reserve × (s' ≡ s)
  unfolding build_liquid_unstake
  unstake_lem owner dto s s' built reserve there rented h unnamed =
      let (amount, given, h1) = bind_ok (require_positive_amount dto.amount_lamports) _ h in
      let (info, pool_there, h2) =
        bind_ok (or_throw (rpc.get_account_info pool.stake_pool) Types.no_stake_pool) _ h1 in
      let (found, is_there, h3) =
        bind_ok (or_throw (rpc.get_account_info pool.reserve_stake) Types.no_reserve) _ h2 in
      let (state, decoded, h4) = bind_ok (decode_stake_pool_withdraw_state info.data_bytes) _ h3 in
      let tokens = lamports_to_pool_tokens amount state.total_lamports state.pool_token_supply in
      let (u, some_tokens, h5) = bind_ok (guard (ltb 0 tokens) Types.amount_too_small) _ h4 in
      let same : found ≡ reserve = same_row (or_throw_ok _ Types.no_reserve is_there) there in
      let lam = ap (λ (x : AccountInfo). x.lamports) same in
      let (total_read, supply_read) = reads_lem info.data_bytes state decoded in
      let (burns, fair, covered, kept) =
        paid_lem owner amount state s s' built reserve found lam (guard_ok _ _ some_tokens) rented
          h5 unnamed in
      (
        record {
          amount = amount;
          given = require_positive_amount_ok dto.amount_lamports amount given;
          info = info;
          on_chain = or_throw_ok _ Types.no_stake_pool pool_there;
          total_lamports = state.total_lamports;
          total_read = total_read;
          pool_token_supply = state.pool_token_supply;
          supply_read = supply_read;
          burns = burns;
          fair = fair;
          covered = covered;
        },
        kept,
      )

  -- Where the reserve has its rent: an unstake for which no account is made burns the tokens that the
  -- amount asked for buys at the totals of the pool's account, rounded down and worth no more than the
  -- amount; the reserve has the whole amount over its rent, and the table stays as it is.
  pub build_liquid_instructions-PaidByReserve :
      (owner : PublicKey) (dto : BuildStakingTransactionDto) (s s' : t.State) (built : Built)
      (reserve : AccountInfo)
      → dto.action ≡ Types.unstake
      → rpc.get_account_info pool.reserve_stake ≡ some reserve
      → rpc.rent_exempt_lamports ≤ reserve.lamports
      → build_liquid_instructions w sighash a pool t network rpc owner dto s ≡ ok (built, s')
      → built.native_stake_address ≡ none
      → PaidByReserve owner dto.amount_lamports built reserve × (s' ≡ s)
  unfolding build_liquid_instructions
  build_liquid_instructions-PaidByReserve owner dto s s' built reserve unstakes there rented h
        unnamed =
      unstake_lem owner dto s s' built reserve there rented (rw unstakes at h) unnamed

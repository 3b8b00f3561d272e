-- ===== src/Staking/Amounts.antt =====
-- The amount that the history shows for a transaction: staking.service.ts parseAmountFromTransaction
-- and staking-chain.utils.ts parseWalletBalanceDeltaSol.
use solsight_api.Prelude.{
  ℕ, zero, suc, ◌+◌, ◌-◌, String, Bool, true, false, ◌&&◌, Option, none, some, List, [], ◌∷◌,
  nat_beq, ltb, or_else, if◌then◌else◌,
}
use solsight_api.Staking.Types.{PublicKey, StakeActionType, unstake_liquid, unstake_native}
use solsight_api.Staking.Instructions.{parse_stake_amount_from_instruction_data, no_sol}

-- types/staking.types.ts; `none` stands for a field that is missing or null.
pub record CompiledInstruction : Type 0 where
  pub program_id_index : ℕ
  pub data_bytes : List ℕ

pub record CompiledMessage : Type 0 where
  pub compiled_instructions : List CompiledInstruction
  pub static_account_keys : List PublicKey

pub record TransactionMeta : Type 0 where
  pub log_messages : Option (List String)
  pub failed : Bool
  pub fee : Option ℕ
  pub pre_balances : Option (List ℕ)
  pub post_balances : Option (List ℕ)

-- `key.equals`
unfoldable pub key_equals : PublicKey → PublicKey → Bool
key_equals [] [] = true
key_equals [] (y ∷ ys) = false
key_equals (x ∷ xs) [] = false
key_equals (x ∷ xs) (y ∷ ys) = nat_beq x y && key_equals xs ys

-- `keys.findIndex`
unfoldable pub index_of_key : PublicKey → List PublicKey → Option ℕ
unfolding key_equals
index_of_key owner [] = none
index_of_key owner (key ∷ keys) =
    let later : Option ℕ = elim (index_of_key owner keys) [ none ↦ none | some i ↦ some (suc i) ] in
    if key_equals key owner then some zero else later

-- `xs[i]`
abbrev pub element {ℓ} : {A : Type ℓ} → List A → ℕ → Option A
element [] i = none
element (x ∷ xs) zero = some x
element (x ∷ xs) (suc i) = element xs i

-- `balances?.[i]`
abbrev pub balance_at : Option (List ℕ) → ℕ → Option ℕ
balance_at none i = none
balance_at (some balances) i = element balances i

module _ (sol_text : ℕ → String) where
  -- What a balance changed by, the fee given back; `post - pre + fee` may be negative, its sign is
  -- dropped.
  abbrev pub delta_text : ℕ → ℕ → ℕ → String
  delta_text pre post fee =
      let gain = post + fee in
      if nat_beq gain pre
      then no_sol
      else (if ltb gain pre then sol_text (pre - gain) else sol_text (gain - pre))

  unfoldable pub parse_wallet_balance_delta_sol :
      TransactionMeta → CompiledMessage → PublicKey → String
  unfolding index_of_key
  parse_wallet_balance_delta_sol meta message owner =
      elim (index_of_key owner message.static_account_keys) [
        | none ↦ no_sol
        | some i ↦ elim (balance_at meta.pre_balances i) [
          | none ↦ no_sol
          | some pre ↦ elim (balance_at meta.post_balances i) [
            | none ↦ no_sol
            | some post ↦ delta_text pre post (or_else meta.fee 0)
          ]
        ]
      ]

  -- Where there is no meta, there are no balances.
  abbrev pub delta_of : Option TransactionMeta → CompiledMessage → PublicKey → String
  delta_of none message owner = no_sol
  delta_of (some meta) message owner = parse_wallet_balance_delta_sol meta message owner

  abbrev pub is_program : PublicKey → Option PublicKey → Bool
  is_program program_id none = false
  is_program program_id (some key) = key_equals key program_id

  -- The amount at the first instruction of the program
  abbrev pub amount_at :
      Option TransactionMeta → CompiledMessage → PublicKey → StakeActionType → List ℕ → String
  amount_at meta message owner unstake_liquid data_bytes = delta_of meta message owner
  amount_at meta message owner unstake_native data_bytes = delta_of meta message owner
  amount_at meta message owner action data_bytes =
      parse_stake_amount_from_instruction_data sol_text data_bytes action

  unfoldable pub amount_of_instructions :
      Option TransactionMeta
      → CompiledMessage
      → PublicKey
      → PublicKey
      → StakeActionType
      → List CompiledInstruction
      → String
  unfolding key_equals parse_stake_amount_from_instruction_data parse_wallet_balance_delta_sol
  amount_of_instructions meta message program_id owner action [] = no_sol
  amount_of_instructions meta message program_id owner action (ix ∷ later) =
      let rest = amount_of_instructions meta message program_id owner action later in
      if is_program program_id (element message.static_account_keys ix.program_id_index)
      then amount_at meta message owner action ix.data_bytes
      else rest

  -- `none` stands for a message of another shape.
  unfoldable pub parse_amount_from_transaction :
      Option CompiledMessage
      → Option TransactionMeta
      → PublicKey
      → PublicKey
      → StakeActionType
      → String
  unfolding amount_of_instructions
  parse_amount_from_transaction none meta program_id owner action = no_sol
  parse_amount_from_transaction (some message) meta program_id owner action =
      amount_of_instructions meta message program_id owner action message.compiled_instructions

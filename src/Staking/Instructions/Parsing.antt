-- ===== src/Staking/Instructions/Parsing.antt =====
-- staking-chain.utils.ts: the history reads back what the builders wrote.
use solsight_api.Prelude.{
  ℕ, ◌+◌, ◌%◌, ◌^◌, String, true, none, some, List, [], ◌∷◌, ◌++◌, length, leb, ◌≡◌, refl, arith,
  ap, ◌∙◌, ok, if◌then◌else◌, All, length-append, sym, subst,
}
use mathlib.Core.List.{append_assoc}
use solsight_api.Prelude.Text.{includes_text, ◌⊕◌}
use solsight_api.Staking.Types.{
  PublicKey, StakePoolCoordinates, Addresses, StakeActionType, stake_liquid, unstake_liquid,
  stake_native, unstake_native, withdraw_native,
}
use solsight_api.Staking.Bytes.{u64_le, read_u64_le, concat}
use solsight_api.Staking.Bytes.Roundtrip.{read_u64_le-u64_le}
use solsight_api.Staking.Instructions.{
  build_stake_ix, build_stake_native_ix, build_withdraw_native_ix, action_of_log,
  classify_stake_action, amount_text, read_text, no_sol, parse_stake_amount_from_instruction_data,
}

-- The line that the program logs when it starts an instruction
abbrev log_name : StakeActionType → String
log_name stake_liquid = "Stake"
log_name unstake_liquid = "Unstake"
log_name stake_native = "StakeNative"
log_name unstake_native = "UnstakeNative"
log_name withdraw_native = "WithdrawNative"

abbrev pub start_log : StakeActionType → String
start_log action = "Program log: Instruction: " ⊕ log_name action

action_of_log-start_log :
    (action : StakeActionType) → action_of_log (start_log action) ≡ some action
unfolding action_of_log includes_text
action_of_log-start_log stake_liquid = refl
action_of_log-start_log unstake_liquid = refl
action_of_log-start_log stake_native = refl
action_of_log-start_log unstake_native = refl
action_of_log-start_log withdraw_native = refl

found :
    (log : String) (later : List String) (action : StakeActionType)
    → action_of_log log ≡ some action
    → classify_stake_action (log ∷ later) ≡ some action
unfolding classify_stake_action
found log later action e = rw (classify_stake_action, e)

-- Behind lines that tell of no action, the line with which the program starts an instruction is
-- classified as that instruction, whatever is logged later.
pub classify_stake_action-start_log :
    (action : StakeActionType) (before later : List String)
    → All (λ log. action_of_log log ≡ none) before
    → classify_stake_action (before ++ start_log action ∷ later) ≡ some action
unfolding classify_stake_action
classify_stake_action-start_log action [] later _ =
    found (start_log action) later action (action_of_log-start_log action)
classify_stake_action-start_log action (log ∷ before) later (silent, rest) =
    rw (classify_stake_action, silent) (classify_stake_action-start_log action before later rest)

module _ (sol_text : ℕ → String) where
  abbrev parsed : List ℕ → StakeActionType → String
  parsed = parse_stake_amount_from_instruction_data sol_text

  length-u64_le :
      (disc rest : List ℕ) (v : ℕ)
      → length (disc ++ (u64_le v ++ rest)) ≡ length disc + 8 + length rest
  unfolding u64_le
  length-u64_le disc rest v = omega (arith, length-append disc (u64_le v ++ rest))

  sixteen : (disc : List ℕ) (v : ℕ) → length disc ≡ 8 → length (disc ++ u64_le v) ≡ 16
  unfolding u64_le
  sixteen disc v eight = omega (arith, length-append disc (u64_le v), eight)

  text_lem :
      (n offset v : ℕ) (bytes : List ℕ)
      → leb n (length bytes) ≡ true
      → read_u64_le bytes offset ≡ ok v
      → (if leb n (length bytes) then read_text sol_text (read_u64_le bytes offset) else no_sol)
        ≡ amount_text sol_text v
  text_lem n offset v bytes enough read = rw (enough, read)

  short_lem :
      (disc : List ℕ) (v : ℕ)
      → length disc ≡ 8
      → let bytes = concat (disc ∷ u64_le v ∷ []) in
        (parsed bytes stake_liquid ≡ amount_text sol_text (v % 2 ^ 64))
        × (parsed bytes withdraw_native ≡ amount_text sol_text (v % 2 ^ 64))
  unfolding parse_stake_amount_from_instruction_data concat
  short_lem disc v eight =
      let bytes = disc ++ (u64_le v ++ []) in
      let enough : leb 16 (length bytes) ≡ true = ground (arith, length-u64_le disc [] v, eight) in
      let read : read_u64_le bytes 8 ≡ ok (v % 2 ^ 64) =
        ap (read_u64_le bytes) (sym eight) ∙ read_u64_le-u64_le disc [] v in
      (text_lem 16 8 _ bytes enough read, text_lem 16 8 _ bytes enough read)

  long_lem :
      (disc : List ℕ) (seed v : ℕ)
      → length disc ≡ 8
      → parsed (concat (disc ∷ u64_le seed ∷ u64_le v ∷ [])) stake_native
        ≡ amount_text sol_text (v % 2 ^ 64)
  unfolding parse_stake_amount_from_instruction_data concat
  long_lem disc seed v eight =
      let bytes = disc ++ (u64_le seed ++ (u64_le v ++ [])) in
      let enough : leb 24 (length bytes) ≡ true =
        ground (arith, length-u64_le disc (u64_le v ++ []) seed, length-u64_le [] [] v, eight) in
      let read : read_u64_le bytes 16 ≡ ok (v % 2 ^ 64) =
        subst (λ (n : ℕ). read_u64_le bytes n ≡ ok (v % 2 ^ 64)) (sixteen disc seed eight)
          (subst (λ (bs : List ℕ). read_u64_le bs (length (disc ++ u64_le seed)) ≡ ok (v % 2 ^ 64))
            (append_assoc disc (u64_le seed) (u64_le v ++ []))
            (read_u64_le-u64_le (disc ++ u64_le seed) [] v)) in
      text_lem 24 16 _ bytes enough read

  -- The amount that the history shows for a staking instruction is the one that its builder was given,
  -- modulo 2 ^ 64: for a liquid stake, a native stake and a withdrawal.
  pub parse-build :
      (sighash : String → String → List ℕ) (a : Addresses)
      (owner config token approved vote stake : PublicKey) (pool : StakePoolCoordinates)
      (seed lamports : ℕ)
      → ((name : String) → length (sighash "global" name) ≡ 8)
      → let shown = amount_text sol_text (lamports % 2 ^ 64) in
        (parsed (build_stake_ix sighash a owner config token pool lamports).data_bytes stake_liquid
          ≡ shown)
        × (parsed
              (build_stake_native_ix sighash a owner config approved vote stake seed
                lamports).data_bytes
              stake_native
            ≡ shown)
        × (parsed
              (build_withdraw_native_ix sighash a owner stake lamports).data_bytes
              withdraw_native
            ≡ shown)
  unfolding build_stake_ix build_stake_native_ix build_withdraw_native_ix
  parse-build sighash a owner config token approved vote stake pool seed lamports eight = (
    (short_lem (sighash "global" "stake") lamports (eight "stake")).0,
    long_lem (sighash "global" "stake_native") seed lamports (eight "stake_native"),
    (short_lem (sighash "global" "withdraw_native") lamports (eight "withdraw_native")).1,
  )

-- ===== src/Staking/Fallback/Selection.antt =====
-- StakingService.selectFallbackValidator: which validator it is.
use solsight_api.Prelude.{
  ℕ, if◌then◌else◌, true, ◌<◌, ltb, some, ◌⊎◌, Result, ok, err, false, Option, none, List, [], ◌∷◌,
  ◌≤◌, ◌≡◌, refl, ap, ◌∙◌, arith, leb, keep, first, All, head_of, IsDesc, sort_desc-IsDesc,
  head-sort_desc, greatest, sort_desc, or_throw, Bool-cases, inl, inr,
}
use solsight_api.Staking.Types.{StakingError, no_active_validator}
use solsight_api.Staking.Accounts.{ValidatorListEntryState, StakePoolWithdrawState, is_byte}
use solsight_api.Staking.Fallback.{
  is_active, active_stake, first_covering, select_fallback_validator,
}

none_covers :
    (required n : ℕ) (vs : List ValidatorListEntryState)
    → leb required n ≡ false
    → All (λ (z : ValidatorListEntryState). z.active_stake_lamports ≤ n) vs
    → first (λ (u : ValidatorListEntryState). leb required u.active_stake_lamports) vs ≡ none
none_covers required n [] less _ = refl
none_covers required n (v ∷ vs) less (h, rest) =
    let small : leb required v.active_stake_lamports ≡ false = ground arith in
    rw small (none_covers required n vs less rest)

first_covering-head :
    (required : ℕ) (vs : List ValidatorListEntryState)
    → IsDesc active_stake vs
    → first_covering required vs ≡ or_throw (head_of vs) no_active_validator
unfolding first_covering
first_covering-head required [] _ = refl
first_covering-head required (v ∷ vs) (below, _) =
    elim (Bool-cases (leb required v.active_stake_lamports)) [
      | inl covers ↦ rw (first_covering, covers)
      | inr less ↦
          rw (first_covering, less)
            (rw (none_covers required v.active_stake_lamports vs less below))
    ]

-- A validator that can pay: its status is `Active`, and stake is active on it
abbrev pub Serves : ValidatorListEntryState → Type 0
Serves v = (v.status ≡ some 0) × (0 < v.active_stake_lamports)

abbrev pub NoMoreThan : ValidatorListEntryState → ValidatorListEntryState → Type 0
NoMoreThan v u = Serves u → u.active_stake_lamports ≤ v.active_stake_lamports

-- `v` stands in the list and can pay, no later one that can has more stake, and every earlier one has
-- less
abbrev pub IsSelected : ValidatorListEntryState → List ValidatorListEntryState → Type 0
IsSelected v [] = ⊥
IsSelected v (u ∷ us) =
    ((u ≡ v) × (Serves v × All (NoMoreThan v) us))
    ⊎ ((Serves u → u.active_stake_lamports < v.active_stake_lamports) × IsSelected v us)

abbrev pub Answers : List ValidatorListEntryState → Option ValidatorListEntryState → Type 0
Answers vs none = All (λ (u : ValidatorListEntryState). ¬ Serves u) vs
Answers vs (some v) = IsSelected v vs

status_lem : (o : Option ℕ) → is_byte 0 o ≡ true → o ≡ some 0
status_lem none e = absurd (ground (arith, e))
status_lem (some n) e = ap (λ (m : ℕ). some m) (ground (arith, e))

is_active-Serves : (v : ValidatorListEntryState) → is_active v ≡ true → Serves v
is_active-Serves v e = (status_lem v.status (ground (arith, e)), ground (arith, e))

not_active-Serves : (v : ValidatorListEntryState) → is_active v ≡ false → ¬ Serves v
not_active-Serves v e (zero_status, staked) =
    let staked_too : ltb 0 v.active_stake_lamports ≡ true = ground (arith, staked) in
    let e' : true ≡ false = rw (zero_status, staked_too) at e in ground (arith, e')

IsSelected-NoMoreThan :
    (v : ValidatorListEntryState) (us : List ValidatorListEntryState)
    → IsSelected v us
    → All (NoMoreThan v) us
IsSelected-NoMoreThan v [] h = tt
IsSelected-NoMoreThan v (u ∷ us) (inl (same, (_, rest))) = ((λ s. rw same (omega arith)), rest)
IsSelected-NoMoreThan v (u ∷ us) (inr (less, h)) =
    ((λ s. let l = less s in omega (arith, l)), IsSelected-NoMoreThan v us h)

none_more :
    (v : ValidatorListEntryState) (us : List ValidatorListEntryState)
    → All (λ (u : ValidatorListEntryState). ¬ Serves u) us
    → All (NoMoreThan v) us
none_more v [] _ = tt
none_more v (u ∷ us) (h, rest) = ((λ s. absurd (h s)), none_more v us rest)

more_than :
    (v y : ValidatorListEntryState) (us : List ValidatorListEntryState)
    → y.active_stake_lamports ≤ v.active_stake_lamports
    → All (NoMoreThan y) us
    → All (NoMoreThan v) us
more_than v y [] le _ = tt
more_than v y (u ∷ us) le (h, rest) =
    ((λ s. let k = h s in omega (arith, k, le)), more_than v y us le rest)

active_step :
    (v : ValidatorListEntryState) (vs : List ValidatorListEntryState)
    (best : Option ValidatorListEntryState)
    → Serves v
    → Answers vs best
    → Answers (v ∷ vs) (elim best [
      | none ↦ some v
      | some y ↦ if ltb v.active_stake_lamports y.active_stake_lamports then some y else some v
    ])
active_step v vs none serves h = inl (refl, (serves, none_more v vs h))
active_step v vs (some y) serves h =
    elim (Bool-cases (ltb v.active_stake_lamports y.active_stake_lamports)) [
      | inl less ↦ rw less (inr ((λ s. ground (arith, less)), h))
      | inr more ↦ rw more (
          inl (
            refl,
            (serves, more_than v y vs (ground (arith, more)) (IsSelected-NoMoreThan y vs h)),
          ))
    ]

idle_step :
    (v : ValidatorListEntryState) (vs : List ValidatorListEntryState)
    (best : Option ValidatorListEntryState)
    → ¬ Serves v
    → Answers vs best
    → Answers (v ∷ vs) best
idle_step v vs none idle h = (idle, h)
idle_step v vs (some y) idle h = inr ((λ s. absurd (idle s)), h)

greatest-Answers :
    (vs : List ValidatorListEntryState) → Answers vs (greatest active_stake (keep is_active vs))
unfolding greatest
greatest-Answers [] = tt
greatest-Answers (v ∷ vs) = elim (Bool-cases (is_active v)) [
  | inl active ↦ rw active (
      active_step v vs (greatest active_stake (keep is_active vs)) (is_active-Serves v active)
        (greatest-Answers vs))
  | inr idle ↦ rw idle (
      idle_step v vs (greatest active_stake (keep is_active vs)) (not_active-Serves v idle)
        (greatest-Answers vs))
]

select_lem :
    (tokens : ℕ) (state : StakePoolWithdrawState) (validators : List ValidatorListEntryState)
    → select_fallback_validator tokens state validators
      ≡ or_throw (greatest active_stake (keep is_active validators)) no_active_validator
unfolding select_fallback_validator
select_lem tokens state validators =
    first_covering-head _ (sort_desc active_stake (keep is_active validators))
      (sort_desc-IsDesc active_stake (keep is_active validators))
    ∙ ap (λ (o : Option ValidatorListEntryState). or_throw o no_active_validator)
        (head-sort_desc active_stake (keep is_active validators))

-- The answers of the service
abbrev pub Chooses :
    List ValidatorListEntryState → Result StakingError ValidatorListEntryState → Type 0
Chooses vs (ok v) = IsSelected v vs
Chooses vs (err e) = (e ≡ no_active_validator) × Answers vs none

chooses_lem :
    (vs : List ValidatorListEntryState) (best : Option ValidatorListEntryState)
    → Answers vs best
    → Chooses vs (or_throw best no_active_validator)
chooses_lem vs none h = (refl, h)
chooses_lem vs (some v) h = h

-- Whatever amount is to be burned, the answer is the first of the validators with status 0 and some
-- active stake that have the most of it, and an error where there is no such validator; whether it has
-- the stake that is required plays no part.
pub select_fallback_validator-Chooses :
    (tokens : ℕ) (state : StakePoolWithdrawState) (validators : List ValidatorListEntryState)
    → Chooses validators (select_fallback_validator tokens state validators)
select_fallback_validator-Chooses tokens state validators =
    rw (select_lem tokens state validators) (
      chooses_lem validators (greatest active_stake (keep is_active validators))
        (greatest-Answers validators))

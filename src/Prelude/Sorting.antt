-- ===== src/Prelude/Sorting.antt =====
-- `xs.sort` by a number, the greatest first; equal elements keep their order.
use Prim.Native.Nat.{ℕ, ◌≤◌}
use mathlib.Core.Path.{◌≡◌, refl}
use mathlib.Core.Logic.{inl, inr}
use mathlib.Core.Option.{Option, none, some}
use mathlib.Core.List.{List, [], ◌∷◌}
use native.Mathlib.Omega.{arith}
use solsight_api.Prelude.Tests.{if◌then◌else◌, ltb, Bool-cases}
use solsight_api.Prelude.Lists.{All, head_of}

module _ {A : Type 0} (key : A → ℕ) where
  unfoldable pub insert_desc : A → List A → List A
  insert_desc x [] = x ∷ []
  insert_desc x (y ∷ ys) = if ltb (key x) (key y) then y ∷ insert_desc x ys else x ∷ y ∷ ys

  unfoldable pub sort_desc : List A → List A
  unfolding insert_desc
  sort_desc [] = []
  sort_desc (x ∷ xs) = insert_desc x (sort_desc xs)

  -- The first of the greatest, in one pass
  unfoldable pub greatest : List A → Option A
  greatest [] = none
  greatest (x ∷ xs) = elim (greatest xs) [
    | none ↦ some x
    | some y ↦ if ltb (key x) (key y) then some y else some x
  ]

  abbrev pub IsDesc : List A → Type 0
  IsDesc [] = Unit {0}
  IsDesc (x ∷ xs) = All (λ (z : A). key z ≤ key x) xs × IsDesc xs

  All-insert_desc :
      (n : ℕ) (x : A) (xs : List A)
      → key x ≤ n
      → All (λ (z : A). key z ≤ n) xs
      → All (λ (z : A). key z ≤ n) (insert_desc x xs)
  unfolding insert_desc
  All-insert_desc n x [] h _ = (h, tt)
  All-insert_desc n x (y ∷ ys) h (g, rest) = elim (Bool-cases (ltb (key x) (key y))) [
    | inl less ↦ rw less (g, All-insert_desc n x ys h rest)
    | inr not_less ↦ rw not_less (h, (g, rest))
  ]

  All-trans :
      (n m : ℕ) (xs : List A)
      → n ≤ m
      → All (λ (z : A). key z ≤ n) xs
      → All (λ (z : A). key z ≤ m) xs
  All-trans n m [] h _ = tt
  All-trans n m (x ∷ xs) h (g, rest) = (omega (arith, g, h), All-trans n m xs h rest)

  insert_desc-IsDesc : (x : A) (xs : List A) → IsDesc xs → IsDesc (insert_desc x xs)
  unfolding insert_desc
  insert_desc-IsDesc x [] _ = (tt, tt)
  insert_desc-IsDesc x (y ∷ ys) (below, desc) = elim (Bool-cases (ltb (key x) (key y))) [
    | inl less ↦
        rw less (All-insert_desc (key y) x ys (ground arith) below, insert_desc-IsDesc x ys desc)
    | inr not_less ↦
        let h : key y ≤ key x = ground arith in
        rw not_less ((h, All-trans (key y) (key x) ys h below), (below, desc))
  ]

  pub sort_desc-IsDesc : (xs : List A) → IsDesc (sort_desc xs)
  unfolding sort_desc
  sort_desc-IsDesc [] = tt
  sort_desc-IsDesc (x ∷ xs) = insert_desc-IsDesc x (sort_desc xs) (sort_desc-IsDesc xs)

  head-insert_desc :
      (x : A) (xs : List A)
      → head_of (insert_desc x xs) ≡ (elim (head_of xs) [
        | none ↦ some x
        | some y ↦ if ltb (key x) (key y) then some y else some x
      ])
  unfolding insert_desc
  head-insert_desc x [] = refl
  head-insert_desc x (y ∷ ys) = elim (Bool-cases (ltb (key x) (key y))) [
    | inl less ↦ rw less
    | inr not_less ↦ rw not_less
  ]

  pub head-sort_desc : (xs : List A) → head_of (sort_desc xs) ≡ greatest xs
  unfolding sort_desc greatest
  head-sort_desc [] = refl
  head-sort_desc (x ∷ xs) = rw (head-insert_desc x (sort_desc xs), head-sort_desc xs)

-- ===== src/Prelude/Dict.antt =====
-- A JavaScript `Map` as the list of its entries, in order of insertion; `set` on a present key keeps
-- its place.
use mathlib.Core.Path.{◌≡◌, refl}
use mathlib.Core.Option.{Option, none, some}
use mathlib.Core.List.{List, [], ◌∷◌}
use native.Mathlib.Omega.{arith}
use solsight_api.Prelude.Tests.{if◌then◌else◌}
use solsight_api.Prelude.Keys.{Eq, ◌==◌}

module _ {K V : Type 0} ⦃e : Eq K⦄ where
  unfoldable pub lookup : K → List (K × V) → Option V
  lookup key [] = none
  lookup key ((k, value) ∷ rest) = if k == key then some value else lookup key rest

  unfoldable pub insert : K → V → List (K × V) → List (K × V)
  insert key value [] = (key, value) ∷ []
  insert key value ((k, old) ∷ rest) =
      if k == key then (key, value) ∷ rest else (k, old) ∷ insert key value rest

  unfoldable pub delete : K → List (K × V) → List (K × V)
  delete key [] = []
  delete key ((k, old) ∷ rest) =
      let kept = delete key rest in if k == key then kept else (k, old) ∷ kept

  pub lookup-insert :
      (key sought : K) (value : V) (entries : List (K × V))
      → lookup sought (insert key value entries)
        ≡ (if key == sought then some value else lookup sought entries)
  unfolding lookup insert
  lookup-insert key sought value [] = refl
  lookup-insert key sought value ((k, old) ∷ rest) =
      let later = lookup-insert key sought value rest in
      ground (arith, later, e.beq_iff k key, e.beq_iff k sought, e.beq_iff key sought)

  pub lookup-delete :
      (key sought : K) (entries : List (K × V))
      → lookup sought (delete key entries) ≡ (if key == sought then none else lookup sought entries)
  unfolding lookup delete
  lookup-delete key sought [] = ground arith
  lookup-delete key sought ((k, old) ∷ rest) =
      let later = lookup-delete key sought rest in
      ground (arith, later, e.beq_iff k key, e.beq_iff k sought, e.beq_iff key sought)

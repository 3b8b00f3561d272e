-- ===== src/Prelude/RowList.antt =====
-- A table as the list of its rows, with no key twice: the laws of `Table` can be met.
use mathlib.Core.Path.{◌≡◌, refl, ap, fun_ext, ◌∙◌}
use mathlib.Core.Logic.{◌≢◌, inl, inr}
use mathlib.Core.Bool.{Bool, true, false}
use mathlib.Core.Option
use mathlib.Core.Option.{Option, none, some}
use mathlib.Core.List.{List, [], ◌∷◌}
use native.Mathlib.Omega.{arith}
use solsight_api.Prelude.Tests.{if◌then◌else◌, Bool-cases}
use solsight_api.Prelude.Keys.{Eq, ◌==◌, eq_self, eq→≡}
use solsight_api.Prelude.Tables.{Table}

module _ {K V : Type 0} ⦃e : Eq K⦄ (key : V → K) where
  abbrev pub row_find : K → List V → Option V
  row_find k [] = none
  row_find k (v ∷ s) = if key v == k then some v else row_find k s

  abbrev pub row_where : (V → Bool) → List V → Option V
  row_where p [] = none
  row_where p (v ∷ s) = if p v then some v else row_where p s

  abbrev pub row_save : V → List V → List V
  row_save v [] = v ∷ []
  row_save v (w ∷ s) = if key w == key v then v ∷ s else w ∷ row_save v s

  abbrev pub keep_key : (V → V) → V → V
  keep_key f v = if key (f v) == key v then f v else v

  abbrev pub row_update : (V → V) → List V → List V
  row_update f [] = []
  row_update f (v ∷ s) = keep_key f v ∷ row_update f s

  abbrev pub row_remove : K → List V → List V
  row_remove k [] = []
  row_remove k (v ∷ s) = if key v == k then s else v ∷ row_remove k s

  abbrev pub IsUnique : List V → Type 0
  IsUnique [] = Unit
  IsUnique (v ∷ s) = (row_find (key v) s ≡ none) × IsUnique s

  pub row_find-key : (k : K) (s : List V) (v : V) → row_find k s ≡ some v → key v ≡ k
  row_find-key k [] v h = cc
  row_find-key k (w ∷ s) v h = ground (arith, row_find-key k s v, e.beq_iff (key w) k)

  pub row_find-save_self :
      (k : K) (v : V) (s : List V) → key v ≡ k → row_find k (row_save v s) ≡ some v
  row_find-save_self k v [] h = ground (arith, e.beq_iff (key v) k)
  row_find-save_self k v (w ∷ s) h = ground (
    arith,
    row_find-save_self k v s h,
    e.beq_iff (key v) k,
    e.beq_iff (key w) (key v),
    e.beq_iff (key w) k,
  )

  pub row_find-save_ne :
      (k : K) (v : V) (s : List V) → key v ≢ k → row_find k (row_save v s) ≡ row_find k s
  row_find-save_ne k v [] h = ground (arith, e.beq_iff (key v) k)
  row_find-save_ne k v (w ∷ s) h = ground (
    arith,
    row_find-save_ne k v s h,
    e.beq_iff (key v) k,
    e.beq_iff (key w) (key v),
    e.beq_iff (key w) k,
  )

  pub key-keep_key : (f : V → V) (v : V) → key (keep_key f v) ≡ key v
  key-keep_key f v = ground (arith, e.beq_iff (key (f v)) (key v))

  pub row_find-row_update :
      (f : V → V) (k : K) (s : List V)
      → row_find k (row_update f s) ≡ Option.map (keep_key f) (row_find k s)
  row_find-row_update f k [] = refl
  row_find-row_update f k (v ∷ s) = elim (Bool-cases (key v == k)) [
    | inl same ↦ rw (key-keep_key f v, same)
    | inr other ↦ rw (key-keep_key f v, other) (row_find-row_update f k s)
  ]

  pub row_find-update_all :
      (f : V → V) (k : K) (s : List V)
      → ((v : V) → key (f v) ≡ key v)
      → row_find k (row_update f s) ≡ Option.map f (row_find k s)
  row_find-update_all f k s h =
      row_find-row_update f k s ∙ ap (λ g. Option.map g (row_find k s)) (fun_ext whole)
    where
      whole : (v : V) → keep_key f v ≡ f v
      whole v = rw (h v, eq_self (key v))

  pub row_find-remove_ne :
      (j k : K) (s : List V) → j ≢ k → row_find k (row_remove j s) ≡ row_find k s
  row_find-remove_ne j k [] h = refl
  row_find-remove_ne j k (v ∷ s) h =
      ground (arith, row_find-remove_ne j k s h, e.beq_iff (key v) j, e.beq_iff (key v) k)

  pub row_find-remove_self : (k : K) (s : List V) → IsUnique s → row_find k (row_remove k s) ≡ none
  row_find-remove_self k [] u = refl
  row_find-remove_self k (v ∷ s) u = elim (Bool-cases (key v == k)) [
    | inl same ↦ rw same (rw (← eq→≡ (key v) k same) u.0)
    | inr other ↦ rw (other, other) (row_find-remove_self k s u.1)
  ]

  pub row_where_sound :
      (p : V → Bool) (s : List V) (v : V)
      → IsUnique s
      → row_where p s ≡ some v
      → (p v ≡ true) × (row_find (key v) s ≡ some v)
  row_where_sound p [] v u h = cc
  row_where_sound p (w ∷ s) v u h = elim (Bool-cases (p w)) [
    | inl hit ↦ let e : w ≡ v = ground arith in rw (← e) (hit, rw (eq_self (key w)))
    | inr miss ↦
        let (pv, found) = row_where_sound p s v u.1 (ground arith) in
        (pv, ground (arith, found, e.beq_iff (key w) (key v), u.0))
  ]

  pub row_where_complete :
      (p : V → Bool) (s : List V) (k : K) (v : V)
      → row_where p s ≡ none
      → row_find k s ≡ some v
      → p v ≡ false
  row_where_complete p [] k v h f = cc
  row_where_complete p (w ∷ s) k v h f = ground (arith, row_where_complete p s k v)

  pub row_save-IsUnique : (v : V) (s : List V) → IsUnique s → IsUnique (row_save v s)
  row_save-IsUnique v [] u = (refl, tt)
  row_save-IsUnique v (w ∷ s) u = elim (Bool-cases (key w == key v)) [
    | inl same ↦ rw same (rw (← eq→≡ (key w) (key v) same) u.0, u.1)
    | inr other ↦ rw other (
      row_find-save_ne (key w) v s (λ q. ground (arith, e.beq_iff (key w) (key v), q)) ∙ u.0,
      row_save-IsUnique v s u.1,
    )
  ]

  pub row_update-IsUnique : (f : V → V) (s : List V) → IsUnique s → IsUnique (row_update f s)
  row_update-IsUnique f [] u = tt
  row_update-IsUnique f (v ∷ s) u =
      (rw (key-keep_key f v, row_find-row_update f (key v) s, u.0), row_update-IsUnique f s u.1)

  pub row_remove-IsUnique : (k : K) (s : List V) → IsUnique s → IsUnique (row_remove k s)
  row_remove-IsUnique k [] u = tt
  row_remove-IsUnique k (v ∷ s) u = elim (Bool-cases (key v == k)) [
    | inl same ↦ rw same u.1
    | inr other ↦ rw other (
      row_find-remove_ne k (key v) s (λ q. ground (arith, e.beq_iff (key v) k, q)) ∙ u.0,
      row_remove-IsUnique k s u.1,
    )
  ]

  abbrev pub Rows : Type 0
  Rows = (s : List V) × IsUnique s

  abbrev pub row_table : Table key
  row_table = record {
    State = Rows;
    find = λ k s. row_find k s.0;
    find_where = λ p s. row_where p s.0;
    save = λ v s. (row_save v s.0, row_save-IsUnique v s.0 s.1);
    update_all = λ f s. (row_update f s.0, row_update-IsUnique f s.0 s.1);
    remove = λ k s. (row_remove k s.0, row_remove-IsUnique k s.0 s.1);
    find-key = λ k s v. row_find-key k s.0 v;
    find-save_self = λ k v s. row_find-save_self k v s.0;
    find-save_ne = λ k v s. row_find-save_ne k v s.0;
    find-update_all = λ f k s. row_find-update_all f k s.0;
    find-remove_self = λ k s. row_find-remove_self k s.0 s.1;
    find-remove_ne = λ j k s. row_find-remove_ne j k s.0;
    find_where_sound = λ p s v. row_where_sound p s.0 v s.1;
    find_where_complete = λ p s k v. row_where_complete p s.0 k v;
  }

-- ===== src/Prelude/RowPredicates.antt =====
-- A predicate that holds of each row of a table, through the operations that write.
use mathlib.Core.Path.{◌≡◌, sym, subst, ◌∙◌}
use mathlib.Core.Logic.{inl, inr}
use mathlib.Core.Option.{Option, some}
use solsight_api.Prelude.Tests.{Option-cases, Bool-cases}
use solsight_api.Prelude.Keys.{Eq, ◌==◌, eq_self, eq→≡}
use solsight_api.Prelude.Tables.{Table, update_row}

some_inj : {A : Type 0} {a b : A} → ◌≡◌ {A = Option A} (some a) (some b) → a ≡ b
some_inj e = cc

module _ {K V : Type 0} ⦃eq : Eq K⦄ {key : V → K} (t : Table key) where
  abbrev pub EveryRow : (V → Type 0) → t.State → Type 0
  EveryRow P s = (k : K) (v : V) → t.find k s ≡ some v → P v

  pub EveryRow-save :
      (P : V → Type 0) (v : V) (s : t.State) → EveryRow P s → P v → EveryRow P (t.save v s)
  EveryRow-save P v s before new k r found = elim (Bool-cases (key v == k)) [
    | inl same ↦
        let e : v ≡ r = some_inj (sym (t.find-save_self k v s (eq→≡ (key v) k same)) ∙ found) in
        subst P e new
    | inr other ↦
        before k r (sym (t.find-save_ne k v s (λ q. cc (rw (q, eq_self k) at other))) ∙ found)
  ]

  pub EveryRow-update_row :
      (P : V → Type 0) (k : K) (f : V → V) (s : t.State)
      → EveryRow P s
      → ((v : V) → t.find k s ≡ some v → P (f v))
      → EveryRow P (update_row t k f s)
  unfolding update_row
  EveryRow-update_row P k f s before new = elim (Option-cases (t.find k s)) [
    | inl e ↦ rw (e, update_row) before
    | inr (v, e) ↦ rw (e, update_row) (EveryRow-save P (f v) s before (new v e))
  ]

  pub EveryRow-update_all :
      (P Q : V → Type 0) (f : V → V) (s : t.State)
      → ((v : V) → key (f v) ≡ key v)
      → EveryRow P s
      → ((v : V) → P v → Q (f v))
      → EveryRow Q (t.update_all f s)
  EveryRow-update_all P Q f s same before new k r found = elim (Option-cases (t.find k s)) [
    | inl e ↦ cc (rw (t.find-update_all f k s same, e) at found)
    | inr (v, e) ↦
        let moved : f v ≡ r = some_inj (rw (t.find-update_all f k s same, e) at found) in
        subst Q moved (new v (before k v e))
  ]

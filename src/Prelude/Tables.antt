-- ===== src/Prelude/Tables.antt =====
-- What the services use of a database table: rows under a primary key, found by the key or by a
-- condition, saved, updated in place and removed. The laws are what the database documents; a table
-- of rows in a list shows that they can be met.
use mathlib.Core.Path.{◌≡◌, sym, ◌∙◌}
use mathlib.Core.Logic.{◌≢◌, inl, inr}
use mathlib.Core.Bool.{Bool, true, false}
use mathlib.Core.Option
use mathlib.Core.Option.{Option, none, some}
use solsight_api.Prelude.Tests.{Option-cases}

pub record Table {K V : Type 0} (key : V → K) : Type 1 where
  pub State : Type 0
  -- `findOne` by the primary key
  pub find : K → State → Option V
  -- `findOne` by any other condition
  pub find_where : (V → Bool) → State → Option V
  -- `save`, and `INSERT … ON CONFLICT DO UPDATE`
  pub save : V → State → State
  -- `UPDATE` of the rows that a condition selects
  pub update_all : (V → V) → State → State
  pub remove : K → State → State
  pub find-key : (k : K) (s : State) (v : V) → find k s ≡ some v → key v ≡ k
  pub find-save_self : (k : K) (v : V) (s : State) → key v ≡ k → find k (save v s) ≡ some v
  pub find-save_ne : (k : K) (v : V) (s : State) → key v ≢ k → find k (save v s) ≡ find k s
  pub find-update_all :
      (f : V → V) (k : K) (s : State)
      → ((v : V) → key (f v) ≡ key v)
      → find k (update_all f s) ≡ Option.map f (find k s)
  pub find-remove_self : (k : K) (s : State) → find k (remove k s) ≡ none
  pub find-remove_ne : (j k : K) (s : State) → j ≢ k → find k (remove j s) ≡ find k s
  pub find_where_sound :
      (p : V → Bool) (s : State) (v : V)
      → find_where p s ≡ some v
      → (p v ≡ true) × (find (key v) s ≡ some v)
  pub find_where_complete :
      (p : V → Bool) (s : State) (k : K) (v : V)
      → find_where p s ≡ none
      → find k s ≡ some v
      → p v ≡ false

module _ {K V : Type 0} {key : V → K} (t : Table key) where
  -- `UPDATE … WHERE` the primary key is `k`
  unfoldable pub update_row : K → (V → V) → t.State → t.State
  update_row k f s = elim (t.find k s) [ none ↦ s | some v ↦ t.save (f v) s ]

  pub update_row_found :
      (k : K) (f : V → V) (s : t.State) (v : V)
      → t.find k s ≡ some v
      → update_row k f s ≡ t.save (f v) s
  unfolding update_row
  update_row_found k f s v e = rw (e, update_row)

  pub find-update_row_self :
      (k : K) (f : V → V) (s : t.State)
      → ((v : V) → key (f v) ≡ key v)
      → t.find k (update_row k f s) ≡ Option.map f (t.find k s)
  unfolding update_row
  find-update_row_self k f s same = elim (Option-cases (t.find k s)) [
    | inl e ↦ rw (e, update_row) e
    | inr (v, e) ↦ rw (e, update_row) (t.find-save_self k (f v) s (same v ∙ t.find-key k s v e))
  ]

  pub find-update_row_ne :
      (j k : K) (f : V → V) (s : t.State)
      → ((v : V) → key (f v) ≡ key v)
      → j ≢ k
      → t.find k (update_row j f s) ≡ t.find k s
  unfolding update_row
  find-update_row_ne j k f s same ne = elim (Option-cases (t.find j s)) [
    | inl e ↦ rw (e, update_row)
    | inr (v, e) ↦
        rw (e, update_row)
          (t.find-save_ne k (f v) s (λ q. ne (sym (same v ∙ t.find-key j s v e) ∙ q)))
  ]

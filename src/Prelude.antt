-- ===== src/Prelude.antt =====
-- The names that the other modules share: the libraries', passed on, and those of the children.
mod Tests
mod Lists
mod Keys
mod Tables
mod RowPredicates
mod RowList
mod Sorting
mod Results
mod Dict
pub mod Text
pub use Tests.*
pub use Lists.*
pub use Keys.*
unfoldable pub use Tables.{update_row}
pub use Tables.{Table, update_row_found, find-update_row_self, find-update_row_ne}
pub use RowPredicates.*
pub use RowList.*
unfoldable pub use Sorting.{insert_desc, sort_desc, greatest}
pub use Sorting.{IsDesc, sort_desc-IsDesc, head-sort_desc}
pub use Results.*
unfoldable pub use Dict.{lookup, insert, delete}
pub use Dict.{lookup-insert, lookup-delete}
pub use Prim.Native.Nat.{ℕ, zero, suc, ◌+◌, ◌-◌, ◌*◌, ◌/◌, ◌%◌, ◌^◌, ◌≤◌, ◌<◌, min, max}
pub use Prim.Native.String.{String}
pub use mathlib.Core.Path.{◌≡◌, refl, sym, ap, subst, ◌∙◌}
pub use mathlib.Core.Logic.{◌≢◌, ◌↔◌, ◌⊎◌, inl, inr}
pub use mathlib.Core.Bool.{Bool, true, false, not, ◌&&◌, ◌||◌}
pub use mathlib.Core.Option.{Option, none, some}
pub use mathlib.Core.List.{List, [], ◌∷◌, ◌++◌, map}
pub use native.Mathlib.Omega.{arith}

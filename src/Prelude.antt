-- ===== src/Prelude.antt =====
-- Names that the other modules share: the libraries' are passed on, and the children add Boolean
-- tests, lists over the native numbers, keys with a Boolean equality, and Python exceptions.
mod Tests
mod Lists
mod Keys
mod Execution
mod Int
mod Sorting
pub use Tests.*
pub use Lists.*
pub use Keys.*
unfoldable pub use Int.*
pub use Execution.*
unfoldable pub use Sorting.{insert_by, sort_by}
pub use Prim.Native.Nat.{ℕ, zero, suc, ◌+◌, ◌-◌, ◌*◌, ◌/◌, ◌%◌, ◌^◌, ◌≤◌, ◌<◌, min, max}
pub use Prim.Native.String.{String}
pub use mathlib.Core.Path.{◌≡◌, refl, sym, ap, ◌∙◌, subst}
pub use mathlib.Core.Logic.{◌≢◌, ◌↔◌, ◌⊎◌, inl, inr}
pub use mathlib.Core.Bool.{Bool, true, false, not, ◌&&◌, ◌||◌}
pub use mathlib.Core.Option.{Option, none, some}
pub use mathlib.Core.List.{List, [], ◌∷◌, ◌++◌, map}
pub use native.Mathlib.Omega.{arith}

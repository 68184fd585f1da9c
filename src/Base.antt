-- ===== src/Base.antt =====
-- The names that the components share: library names passed on, Boolean tests, lists measured by
-- native numbers, results with errors, ordered keys, sorting and sums.
pub mod Tests
pub mod Lists
pub mod Results
pub mod Int
pub mod Order
pub mod Keys
pub mod Sorting
pub mod Dictionary
pub mod Literals
pub use Tests.*
pub use Lists.*
pub use Results.*
pub use Order.{Text, Ordered}
pub use Dictionary.{Dict, lookup, insert}
pub use Prim.Native.Nat.{ℕ, zero, suc, ◌+◌, ◌-◌, ◌*◌, ◌/◌, ◌%◌, ◌^◌, ◌≤◌, ◌<◌}
pub use mathlib.Core.Path.{◌≡◌, refl, sym, ap, ◌∙◌}
pub use mathlib.Core.Logic.{◌≢◌, ◌↔◌, ◌⊎◌, inl, inr}
pub use mathlib.Core.Bool.{Bool, true, false, ◌&&◌, ◌||◌, not}
pub use mathlib.Core.Option.{Option, none, some}
pub use mathlib.Core.List.{List, [], ◌∷◌, ◌++◌, map}
pub use native.Mathlib.Omega.{arith}

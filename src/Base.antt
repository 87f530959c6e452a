-- ===== src/Base.antt =====
-- The names that all modules share: library names passed on, tests, errors, runs and arrays.
mod Tests
mod Arrays
mod Runs
mod Memory
mod Comparisons
unfoldable pub use Tests.*
unfoldable pub use Arrays.*
unfoldable pub use Runs.*
unfoldable pub use Memory.*
unfoldable pub use Comparisons.*
pub use Prim.Native.Nat.{
  ℕ, zero, suc, ◌+◌, ◌-◌, ◌*◌, ◌/◌, ◌%◌, ◌^◌, ◌≤◌, ◌<◌, compare, Ordering, max, min, bit_and,
  bit_or, bit_xor,
}
pub use mathlib.Core.Path.{◌≡◌, refl, sym, ap, ap₂, ◌∙◌, subst}
pub use mathlib.Core.Logic.{◌≢◌, ◌↔◌, ◌⊎◌, inl, inr}
pub use mathlib.Core.Bool.{Bool, true, false, not, ◌&&◌, ◌||◌}
pub use mathlib.Core.Option.{Option, none, some}
pub use mathlib.Core.List.{List, [], ◌∷◌, ◌++◌, map, Perm}
pub use native.Mathlib.Omega.{arith}

-- ===== src/Base.antt =====
-- The names that the other modules share: the libraries', passed on, and those of the children.
mod Tests
mod Lists
mod Fallible
mod Tally
mod Cells
mod Text
mod Reverse
mod Simulation
pub mod Doubles
pub mod Bits
pub mod Int
pub mod CInt
pub use Tests.*
pub use Lists.*
pub use Fallible.*
pub use Tally.*
pub use Cells.*
pub use Text.*
pub use Reverse.*
unfoldable pub use Simulation.*
pub use mathlib.Core.List.{reverse}
pub use Prim.Native.Nat.{ℕ, zero, suc, ◌+◌, ◌-◌, ◌*◌, ◌/◌, ◌%◌, ◌^◌, ◌≤◌, ◌<◌}
pub use mathlib.Core.Path.{◌≡◌, refl, sym, ap, ◌∙◌, subst}
pub use mathlib.Core.Logic.{◌≢◌, ◌↔◌, ◌⊎◌, inl, inr}
pub use mathlib.Core.Bool.{Bool, true, false, ◌&&◌, ◌||◌, not}
pub use mathlib.Core.Option.{Option, none, some}
pub use mathlib.Core.List.{List, [], ◌∷◌, ◌++◌, map}
pub use native.Mathlib.Omega.{arith}

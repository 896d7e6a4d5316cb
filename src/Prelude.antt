-- ===== src/Prelude.antt =====
-- The names that the other modules share: the libraries', passed on, and those of the children.
mod Tests
mod Lists
mod Words
mod Rows
pub mod Bits
pub mod BitAt
pub mod BitTest
pub use Tests.*
pub use Lists.*
pub use Words.*
pub use Rows.*
pub use Prim.Native.Nat.{ℕ, zero, suc, ◌+◌, ◌-◌, ◌*◌, ◌/◌, ◌%◌, ◌^◌, ◌≤◌, ◌<◌}
pub use Prim.Native.Nat.{bit_and, bit_or}
pub use mathlib.Core.Path.{◌≡◌, refl, sym, ap, ◌∙◌, subst}
pub use mathlib.Core.Logic.{◌≢◌, ◌↔◌, ◌⊎◌, inl, inr}
pub use mathlib.Core.Bool.{Bool, true, false, not, ◌&&◌, ◌||◌}
pub use mathlib.Core.Option.{Option, none, some}
pub use mathlib.Core.List.{List, [], ◌∷◌, ◌++◌, map}
pub use native.Mathlib.Omega.{arith}

-- ===== src/Base.antt =====
-- The names that the other modules share: those of the libraries and of the children.
mod Tests
mod Lists
mod Int
mod Words
mod State
pub mod Bits
pub use Tests.*
unfoldable pub use Tests.{all_below}
pub use Lists.*
unfoldable pub use Lists.{eq_bytes}
pub use Int.*
unfoldable pub use Int.{◌+ℤ◌, ◌-ℤ◌}
pub use Words.*
pub use State.*
unfoldable pub use State.{branch, try}
pub use Prim.Native.Nat.{
  ℕ, zero, suc, ◌+◌, ◌-◌, ◌*◌, ◌/◌, ◌%◌, ◌^◌, ◌≤◌, ◌<◌, min, bit_and, bit_xor,
}
pub use mathlib.Core.Path.{◌≡◌, refl, sym, ap, ◌∙◌, subst}
pub use mathlib.Core.Logic.{◌≢◌, ◌↔◌, ◌⊎◌, inl, inr}
pub use mathlib.Core.Bool.{Bool, true, false, not, ◌&&◌, ◌||◌}
pub use mathlib.Core.Option.{Option, none, some}
pub use mathlib.Core.List.{List, [], ◌∷◌, ◌++◌}
pub use native.Mathlib.Omega.{arith}

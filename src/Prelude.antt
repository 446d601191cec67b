-- ===== src/Prelude.antt =====
-- The names that the other modules share: the libraries', passed on, and those of the children.
-- It models no code of the program but the parts of the C++ standard library that the program
-- uses: comparisons, vectors, `std::string` as a list of bytes, and `std::unordered_map`.
mod Tests
mod Lists
pub mod Text
pub mod Map
pub mod Int
pub mod Double
pub mod Decimal
pub mod Sums
pub mod Lines
pub mod Slices
pub use Tests.*
pub use Lists.*
unfoldable pub use Lists.{any}
pub use Text.{Bytes, text_eq_iff, text_eq_refl}
unfoldable pub use Text.{text, text_eq}
pub use Prim.Native.Nat.{ℕ, zero, suc, ◌+◌, ◌-◌, ◌*◌, ◌/◌, ◌%◌, ◌^◌, ◌≤◌, ◌<◌, min, max}
pub use mathlib.Core.Path.{◌≡◌, refl, sym, ap, ◌∙◌, subst}
pub use mathlib.Core.Logic.{◌≢◌, ◌↔◌, ◌⊎◌, inl, inr}
pub use mathlib.Core.Bool.{Bool, true, false, ◌&&◌, ◌||◌, not}
pub use mathlib.Core.Option.{Option, none, some}
pub use mathlib.Core.List.{List, [], ◌∷◌, ◌++◌, map}
pub use native.Mathlib.Omega.{arith}

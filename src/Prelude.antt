-- ===== src/Prelude.antt =====
-- The names that all modules of the development share: those of the libraries, passed on, and the
-- Boolean tests, list functions and induction principles of the children.
mod Tests
mod Lists
pub mod Strings
pub mod Bits
pub mod Int
pub use Tests.*
pub use Lists.*
pub use Strings.{Str, eq_str, eq_str_self, eq_str-eq}
pub use Prim.Native.Nat.{ℕ, zero, suc, ◌+◌, ◌-◌, ◌*◌, ◌/◌, ◌%◌, ◌^◌, ◌≤◌, ◌<◌}
pub use mathlib.Core.Path.{◌≡◌, refl, sym, ap, ◌∙◌}
pub use mathlib.Core.Logic.{◌≢◌, ◌↔◌, ◌⊎◌, inl, inr}
pub use mathlib.Core.Bool.{Bool, true, false, ◌&&◌, ◌||◌, not}
pub use mathlib.Core.Option.{Option, none, some}
pub use mathlib.Core.List.{List, [], ◌∷◌, ◌++◌, map}
pub use native.Mathlib.Omega.{arith}
unfoldable pub use native.Mathlib.Decide.{dec_lt, ℕ_discrete}

-- ===== src/Base.antt =====
-- Names that every module of the library shares: those of the libraries, passed on, and those of
-- the children (tests on numbers, texts as byte lists, tables as lists of rows).
mod Tests
mod Lists
mod Strings
mod Table
pub mod Int
pub mod Parse
pub use Tests.*
pub use Lists.*
unfoldable pub use Strings.*
unfoldable pub use Table.*
pub use Prim.Native.Nat.{ℕ, zero, suc, ◌+◌, ◌-◌, ◌*◌, ◌/◌, ◌%◌, ◌^◌, ◌≤◌, ◌<◌, min, max}
pub use Prim.Native.String.{String}
pub use mathlib.Core.Path.{◌≡◌, refl, sym, ap, ◌∙◌, subst}
pub use mathlib.Core.Logic.{◌≢◌, ◌↔◌, ◌⊎◌, inl, inr}
pub use mathlib.Core.Bool.{Bool, true, false, ◌&&◌, ◌||◌, not}
pub use mathlib.Core.Option.{Option, none, some}
pub use mathlib.Core.List.{List, [], ◌∷◌, ◌++◌, map}
pub use native.Mathlib.Omega.{arith}

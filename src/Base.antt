-- ===== src/Base.antt =====
-- The names that every module shares: those of the libraries, passed on, and those of the children
-- (tests, C arrays as lists, the status codes and the result monad). No code of its own.
mod Tests
mod Lists
mod Monad
mod Size
unfoldable pub use Tests.*
unfoldable pub use Lists.*
unfoldable pub use Monad.*
unfoldable pub use Size.*
pub use Prim.Native.Nat.{ℕ, zero, suc, ◌+◌, ◌-◌, ◌*◌, ◌/◌, ◌%◌, ◌^◌, ◌≤◌, ◌<◌, min, max}
pub use mathlib.Core.Path.{◌≡◌, refl, sym, ap, ◌∙◌, subst}
pub use mathlib.Core.Logic.{◌≢◌, ◌↔◌, ◌⊎◌, inl, inr}
pub use mathlib.Core.Bool.{Bool, true, false, not, ◌&&◌, ◌||◌}
pub use mathlib.Core.Option.{Option, none, some}
pub use mathlib.Core.List.{List, [], ◌∷◌, ◌++◌, map, reverse}
pub use native.Mathlib.Omega.{arith}

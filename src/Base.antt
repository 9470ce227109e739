-- ===== src/Base.antt =====
-- The names that every module shares: the libraries' names passed on, the conditional, the tests
-- on numbers and texts, lists measured by native numbers, and results of code that may raise.
mod Tests
mod Lists
mod Results
pub mod Membership
pub mod Sha256
pub mod Sort
pub mod TextOrder
pub mod Discrete
pub mod Lookup
pub use Tests.*
pub use Lists.*
pub use Results.*
pub use Prim.Native.Nat.{ℕ, zero, suc, ◌+◌, ◌-◌, ◌*◌, ◌≤◌, ◌<◌, min, max}
pub use Prim.Native.String.{String}
pub use mathlib.Core.Path.{◌≡◌, refl, sym, ap, ◌∙◌, subst}
pub use mathlib.Core.Logic.{◌≢◌, ◌↔◌, ◌⊎◌, inl, inr}
pub use mathlib.Core.Bool.{Bool, true, false, not, ◌&&◌, ◌||◌}
pub use mathlib.Core.Option.{Option, none, some}
pub use mathlib.Core.List.{List, [], ◌∷◌, ◌++◌, map}
pub use native.Mathlib.Omega.{arith}

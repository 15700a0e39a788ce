-- ===== src/Base.antt =====
-- The names that every module shares: the libraries', passed on, the Boolean tests on native
-- numbers, and case lemmas. The children are the integers with their `i128` checks, the storage
-- maps, strings, slices of lists and the results of a contract call.
pub mod Int
pub mod Dict
pub mod Host
pub mod Tables
pub mod Text
pub mod Slices
pub mod Occurs
mod Tests
pub use Tests.*
pub use Prim.Native.Nat.{ℕ, zero, suc, ◌+◌, ◌-◌, ◌*◌, ◌/◌, ◌%◌, ◌^◌, ◌≤◌, ◌<◌, min, max}
pub use mathlib.Core.Path.{◌≡◌, refl, sym, ap, subst, ◌∙◌}
pub use mathlib.Core.Logic.{◌≢◌, ◌↔◌, ◌⊎◌, inl, inr}
pub use mathlib.Core.Bool.{Bool, true, false, not, ◌&&◌, ◌||◌}
pub use mathlib.Core.Option.{Option, none, some}
pub use mathlib.Core.List.{List, [], ◌∷◌, ◌++◌}
pub use native.Mathlib.Omega.{arith}

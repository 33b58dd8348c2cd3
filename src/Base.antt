-- ===== src/Base.antt =====
-- The names that every module shares: the libraries', passed on, and those of its children; Int
-- is used by name.
mod Tests
mod Lists
mod Words
mod Cuts
mod Fallible
mod Tasks
pub mod Int
pub use Tests.*
pub use Lists.*
pub use Cuts.*
pub use Fallible.*
pub use Words.*
pub use Tasks.*
pub use Prim.Native.Nat.{ℕ, zero, suc, ◌+◌, ◌-◌, ◌*◌, ◌/◌, ◌%◌, ◌^◌, ◌≤◌, ◌<◌, min, max}
pub use mathlib.Core.Path.{◌≡◌, refl, sym, ap, ◌∙◌}
pub use mathlib.Core.Logic.{◌≢◌, ◌↔◌, ◌⊎◌, inl, inr}
pub use mathlib.Core.Bool.{Bool, true, false, not, ◌&&◌, ◌||◌}
pub use mathlib.Core.Option.{Option, none, some}
pub use mathlib.Core.List.{List, [], ◌∷◌, ◌++◌, map}
pub use native.Mathlib.Omega.{arith}

-- ===== src/Base.antt =====
-- The names that the other modules share: the libraries', passed on, and those of the children.
mod Tests
mod Order
mod Lists
mod Iter
pub mod Exec
mod Sort
mod Digits
mod Results
mod Trim
pub use Tests.*
unfoldable pub use Order.*
unfoldable pub use Lists.*
pub use Iter.*
unfoldable pub use Sort.*
pub use Digits.*
pub use Results.*
unfoldable pub use Trim.*
pub use Prim.Native.Nat.{ℕ, zero, suc, ◌+◌, ◌-◌, ◌*◌, ◌/◌, ◌%◌, ◌≤◌, ◌<◌}
pub use mathlib.Core.Path.{◌≡◌, refl, sym, ap, ◌∙◌}
pub use mathlib.Core.Logic.{◌≢◌, ◌↔◌, ◌⊎◌, inl, inr}
pub use mathlib.Core.Bool.{Bool, true, false, not, ◌&&◌, ◌||◌}
pub use mathlib.Core.Option.{Option, none, some}
unfoldable pub use mathlib.Core.List.{flat_map}
pub use mathlib.Core.List.{foldl, List, [], ◌∷◌, ◌++◌, map}
pub use native.Mathlib.Omega.{arith}

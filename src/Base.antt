-- ===== src/Base.antt =====
-- Names that every module shares: the libraries' and those of the children, passed on.
mod Tests
mod Text
mod Rows
mod RowLaws
mod KeyLaws
mod Results
mod Sorting
pub use Tests.*
unfoldable pub use Text.*
pub use RowLaws.*
pub use KeyLaws.*
pub use Results.*
unfoldable pub use Rows.*
unfoldable pub use Sorting.*
pub use Prim.Native.Nat.{ℕ, zero, suc, ◌+◌, ◌-◌, ◌*◌, ◌/◌, ◌%◌, ◌^◌, ◌≤◌, ◌<◌, min, max}
pub use Prim.Native.String.{String}
pub use mathlib.Core.Path.{◌≡◌, refl, sym, ap, ◌∙◌}
pub use mathlib.Core.Logic.{◌≢◌, ◌↔◌, ◌⊎◌, inl, inr}
pub use mathlib.Core.Bool.{Bool, true, false, not, ◌&&◌, ◌||◌}
pub use mathlib.Core.Option.{Option, none, some}
pub use mathlib.Core.List.{List, [], ◌∷◌, ◌++◌, map}
pub use native.Mathlib.Omega.{arith}

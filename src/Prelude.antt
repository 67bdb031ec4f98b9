-- ===== src/Prelude.antt =====
-- The names that every module shares: the libraries', passed on, and those of the modules below.
-- Texts, sorting and dictionaries stand for what Python's `str`, `sorted` and `dict` do.
mod Tests
mod Lists
mod Order
mod Texts
mod Sorting
mod Dicts
mod Results
mod Canonical
pub use Tests.*
pub use Lists.*
unfoldable pub use Order.*
unfoldable pub use Texts.*
unfoldable pub use Sorting.*
unfoldable pub use Dicts.*
pub use Results.*
pub use Canonical.*
pub use Prim.Native.Nat.{ℕ, zero, suc, ◌+◌, ◌-◌, ◌*◌, ◌/◌, ◌%◌, ◌^◌, ◌≤◌, ◌<◌, compare, min, max}
pub use Prim.Native.String.{String}
pub use mathlib.Core.Path.{◌≡◌, refl, sym, ap, ◌∙◌}
pub use mathlib.Core.Logic.{◌≢◌, ◌↔◌, ◌⊎◌, inl, inr}
pub use mathlib.Core.Bool.{Bool, true, false, not, ◌&&◌, ◌||◌}
pub use mathlib.Core.Option.{Option, none, some}
pub use mathlib.Core.List.{List, [], ◌∷◌, ◌++◌, map}
pub use native.Mathlib.Omega.{arith}

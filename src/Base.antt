-- ===== src/Base.antt =====
-- Names shared by every module: the libraries', passed on, and those of the child modules.
mod Tests
mod Lists
mod Sets
mod Sort
mod Repeats
mod Errors
mod Texts
mod Dicts
pub use Tests.*
pub use Lists.*
unfoldable pub use Sets.*
unfoldable pub use Sort.*
pub use Repeats.*
pub use Errors.*
unfoldable pub use Texts.*
unfoldable pub use Dicts.*
pub use Prim.Native.Nat.{ℕ, zero, suc, ◌+◌, ◌-◌, ◌*◌, ◌/◌, ◌%◌, ◌^◌, ◌≤◌, ◌<◌, min, max}
pub use Prim.Native.String.{String}
pub use mathlib.Core.Path.{◌≡◌, refl, sym, ap, ap₂, ◌∙◌, fun_ext}
pub use mathlib.Core.Logic.{◌≢◌, ◌↔◌, ◌⊎◌, inl, inr}
pub use mathlib.Core.Bool.{Bool, true, false, not, ◌&&◌, ◌||◌}
pub use mathlib.Core.Option.{Option, none, some}
pub use mathlib.Core.List.{List, [], ◌∷◌, ◌++◌, map}
pub use native.Mathlib.Omega.{arith}
unfoldable pub use native.Mathlib.Decide.{ℕ_discrete}

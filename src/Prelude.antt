-- ===== src/Prelude.antt =====
-- The names that every component shares: the libraries', passed on, and those of the children.
mod Tests
mod Tables
mod Texts
mod Keys
mod Times
mod Digits
mod Sums
mod Pointwise
mod Queries
pub use Tests.*
unfoldable pub use Tables.*
unfoldable pub use Texts.*
pub use Keys.*
pub use Times.*
unfoldable pub use Digits.*
unfoldable pub use Sums.*
pub use Pointwise.*
unfoldable pub use Queries.*
pub use Prim.Native.Nat.{ℕ, zero, suc, ◌+◌, ◌-◌, ◌*◌, ◌/◌, ◌%◌, ◌^◌, ◌≤◌, ◌<◌, min, max}
pub use mathlib.Core.Path.{◌≡◌, refl, sym, ap, ◌∙◌, subst}
pub use mathlib.Core.Logic.{◌≢◌, ◌↔◌, ◌⊎◌, inl, inr}
pub use mathlib.Core.Bool.{Bool, true, false, not, ◌&&◌, ◌||◌}
pub use mathlib.Core.Option.{Option, none, some}
pub use mathlib.Core.List.{List, [], ◌∷◌, ◌++◌, map, append_assoc}
pub use Prim.Native.String.{String}
pub use native.Mathlib.Omega.{arith}

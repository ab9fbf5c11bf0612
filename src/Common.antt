-- ===== src/Common.antt =====
-- The names that the other modules share: the libraries' names passed on, Boolean tests, and the
-- helpers of the children (errors, effects, dictionaries).
mod Tests
mod Errors
mod Effects
mod Rules
mod Retry
mod Texts
mod Dicts
mod Times
pub use Tests.*
pub use Errors.*
unfoldable pub use Effects.*
unfoldable pub use Dicts.*
pub use Rules.*
unfoldable pub use Retry.*
unfoldable pub use Texts.*
pub use Times.*
pub use Prim.Native.Nat.{ℕ, zero, suc, ◌+◌, ◌-◌, ◌*◌, ◌/◌, ◌%◌, ◌≤◌, ◌<◌}
pub use Prim.Native.String.{String}
pub use mathlib.Core.Path.{◌≡◌, refl, sym, ap, ◌∙◌}
pub use mathlib.Core.Logic.{◌≢◌, ◌↔◌, ◌⊎◌, inl, inr}
pub use mathlib.Core.Bool.{Bool, true, false, not, ◌&&◌, ◌||◌}
pub use mathlib.Core.Option.{Option, none, some}
pub use mathlib.Core.List.{List, [], ◌∷◌, ◌++◌}
pub use native.Mathlib.Omega.{arith}
pub use text.Mathlib.Text.{◌==◌, starts_with, find?}
pub use Prim.Native.String.{slice, len}
pub use text.Mathlib.TextEquality.{eq_iff}
pub use text.Mathlib.TextPositions.{eq_refl}

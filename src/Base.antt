-- ===== src/Base.antt =====
-- The names that the other modules share: those of the libraries, passed on, and those of the
-- children, for Boolean tests, Python's exceptions, lists, texts and dictionaries.
mod Tests
mod Raising
mod Outcomes
mod Lists
mod Text
mod Dicts
mod Sorting
mod Members
mod Deletes
mod Times
unfoldable pub use Tests.*
unfoldable pub use Raising.*
unfoldable pub use Outcomes.*
unfoldable pub use Lists.*
unfoldable pub use Text.*
unfoldable pub use Dicts.*
unfoldable pub use Sorting.*
unfoldable pub use Members.*
unfoldable pub use Deletes.*
unfoldable pub use Times.*
pub use Prim.Native.Nat.{ℕ, zero, suc, ◌+◌, ◌-◌, ◌*◌, ◌/◌, ◌%◌, ◌≤◌, ◌<◌}
pub use Prim.Native.String.{String, ◌++◌ as ◌<>◌}
pub use mathlib.Core.Path.{◌≡◌, refl, sym, ap, subst, ◌∙◌}
pub use mathlib.Core.Logic.{◌≢◌, ◌↔◌, ◌⊎◌, inl, inr}
pub use mathlib.Core.Bool.{Bool, true, false, not, ◌&&◌, ◌||◌}
pub use mathlib.Core.Option.{Option, none, some}
pub use mathlib.Core.List.{List, [], ◌∷◌, ◌++◌, map, append-nil, append_assoc}
pub use native.Mathlib.Omega.{arith}
pub use text.Mathlib.TextEquality.{eq_iff}

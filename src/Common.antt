-- ===== src/Common.antt =====
-- The names that the other modules share: those of the libraries, passed on, and those of the
-- children (tests, texts as bytes, run-time panics, Go maps, ordered lists).
mod Tests
mod Strings
mod Panics
mod Maps
mod Keyed
pub mod Order
pub mod Uniq
pub mod Ranged
pub mod Collected
pub mod Named
pub mod Split
pub mod Sorting
pub use Tests.*
unfoldable pub use Keyed.*
pub use Panics.*
unfoldable pub use Strings.*
unfoldable pub use Maps.*
pub use Prim.Native.Nat.{ℕ, zero, suc, ◌+◌, ◌-◌, ◌*◌, ◌%◌, ◌/◌, ◌^◌, ◌≤◌, ◌<◌}
pub use Prim.Native.String.{String}
pub use mathlib.Core.Path.{◌≡◌, refl, sym, ap, ◌∙◌, subst}
pub use mathlib.Core.Logic.{◌≢◌, ◌↔◌, ◌⊎◌, inl, inr}
pub use mathlib.Core.Bool.{Bool, true, false, not, ◌&&◌, ◌||◌}
pub use mathlib.Core.Option.{Option, none, some}
pub use mathlib.Core.List.{List, [], ◌∷◌, ◌++◌, map, append-nil, append_assoc}
pub use mathlib.Core.List.{Permᴰ}
pub use native.Mathlib.Omega.{arith}

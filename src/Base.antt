-- ===== src/Base.antt =====
-- The names that the other modules share: the library's, passed on, and those of the children:
-- Boolean tests, lists over the native numbers, byte strings, dictionaries, integers, sorting.
mod Tests
mod Lists
pub mod Int
mod Strings
mod Maps
mod Sorting
mod Perms
pub mod Decimal
pub use Tests.*
unfoldable pub use Lists.*
unfoldable pub use Strings.*
unfoldable pub use Maps.*
unfoldable pub use Sorting.*
unfoldable pub use Perms.*
pub use Prim.Native.Nat.{ℕ, zero, suc, ◌+◌, ◌-◌, ◌*◌, ◌/◌, ◌%◌, ◌^◌, ◌≤◌, ◌<◌}
pub use Prim.Native.String.{String}
pub use mathlib.Core.Path.{◌≡◌, refl, sym, ap, ap₂, subst, ◌∙◌}
pub use mathlib.Core.Logic.{◌≢◌, ◌↔◌, ◌⊎◌, inl, inr}
pub use mathlib.Core.Bool.{Bool, true, false, not, ◌&&◌, ◌||◌}
pub use mathlib.Core.Option.{Option, none, some}
pub use mathlib.Core.List.{List, [], ◌∷◌, ◌++◌, map, reverse, Perm, append-nil, append_assoc}
pub use native.Mathlib.Omega.{arith}

-- ===== src/Prelude.antt =====
-- The names that the other modules share: the libraries', passed on, and those of the children:
-- tests on numbers, lists over the native numbers, byte strings and association lists.
mod Tests
mod Options
mod Lists
mod Strings
mod Maps
mod Int
mod Floats
mod Paths
pub use Tests.*
pub use Lists.*
pub use Options.*
pub use Strings.*
unfoldable pub use Strings.{text_eq, text_lt, has_prefix, split, trim_slashes, text_mem, pair_eq}
unfoldable pub use Maps.{lookup, insert, delete, alter, keep_keys, unique}
pub use Maps.*
unfoldable pub use Paths.{clean_from, clean, join, base_name, dir_name, ext}
pub use Int.*
pub use Floats.*
pub use Prim.Native.Nat.{ℕ, zero, suc, ◌+◌, ◌-◌, ◌*◌, ◌/◌, ◌%◌, ◌^◌, ◌≤◌, ◌<◌, min, max}
pub use mathlib.Core.Path.{◌≡◌, refl, sym, ap, subst, ◌∙◌}
pub use mathlib.Core.Logic.{◌≢◌, ◌↔◌, ◌⊎◌, inl, inr}
pub use mathlib.Core.Bool.{Bool, true, false, ◌&&◌, ◌||◌, not}
pub use mathlib.Core.Option.{Option, none, some}
pub use mathlib.Core.List.{List, [], ◌∷◌, ◌++◌, map}
pub use native.Mathlib.Omega.{arith}
pub use native.Mathlib.Nat.{add-zero, zero-add}

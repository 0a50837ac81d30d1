-- ===== src/Base.antt =====
-- The names that the other modules share: the libraries', passed on, and those of the children.
mod Tests
mod Results
mod Lists
mod Int
mod Strings
mod Keys
mod Maps
mod Sort
mod Words
mod Division
pub use Tests.*
pub use Results.*
pub use Lists.*
pub use Int.*
unfoldable pub use Strings.{bytes_eq, bytes_lt, has_prefix, has_suffix, contains}
pub use Strings.*
pub use Keys.*
unfoldable pub use Maps.{lookup, insert, keep_keys}
pub use Maps.*
unfoldable pub use Sort.{insert_by, sort_by}
pub use Sort.*
pub use Words.*
pub use Division.*
pub use Prim.Native.Nat.{ℕ, zero, suc, ◌+◌, ◌-◌, ◌*◌, ◌/◌, ◌%◌, ◌^◌, ◌≤◌, ◌<◌, min, max}
pub use mathlib.Core.Path.{◌≡◌, refl, sym, ap, ◌∙◌}
pub use mathlib.Core.Logic.{◌≢◌, ◌↔◌, ◌⊎◌, inl, inr}
pub use mathlib.Core.Bool.{Bool, true, false, not, ◌&&◌, ◌||◌}
pub use mathlib.Core.Option.{Option, none, some}
pub use mathlib.Core.List.{List, [], ◌∷◌, ◌++◌, map}
pub use native.Mathlib.Omega.{arith}

-- ===== src/Base.antt =====
-- The names that the other modules share: the libraries', passed on, and those of the children.
mod Tests
mod Lists
mod Maps
mod Sorting
mod Text
mod LastIndex
mod Decimal
mod Prefix
mod Paths
pub use Tests.*
pub use Lists.*
pub use Maps.*
pub use Sorting.*
pub use LastIndex.*
pub use Prefix.*
unfoldable pub use Text.{
  ◌<>◌, cut, has_prefix, after_prefix, contains_text, before_last, ends_with_char, to_lower, join,
  trim_space,
}
unfoldable pub use Paths.{split, clean, join_path, base_path}
unfoldable pub use Decimal.{itoa, atoi}
pub use Prim.Native.Nat.{ℕ, zero, suc, ◌+◌, ◌-◌, ◌*◌, ◌≤◌, ◌<◌}
pub use Prim.Native.String.{String}
pub use mathlib.Core.Path.{◌≡◌, refl, sym, ap, ◌∙◌}
pub use mathlib.Core.Logic.{◌≢◌, ◌↔◌, ◌⊎◌, inl, inr}
pub use mathlib.Core.Bool.{Bool, true, false, not, ◌&&◌, ◌||◌}
pub use mathlib.Core.Option.{Option, none, some}
pub use mathlib.Core.List.{List, [], ◌∷◌, ◌++◌, map}
pub use native.Mathlib.Omega.{arith}
pub use text.Mathlib.TextEquality.{eq_iff}

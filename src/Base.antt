-- ===== src/Base.antt =====
-- The names that the other modules share: the libraries', passed on, and those of its children.
mod Tests
mod Lists
mod Text
mod Results
mod Decimal
mod Split
mod Lines
mod Slices
mod Sorting
pub use Tests.*
pub use Lists.*
pub use Text.*
unfoldable pub use Text.{trim, trim_start, is_whitespace, filter_chars, map_chars, is_ascii}
pub use Results.*
pub use Decimal.*
unfoldable pub use Decimal.{show, parse_uint}
pub use Split.*
unfoldable pub use Split.{split_once, split_on, strip_prefix, after_prefix, words}
pub use Lines.*
pub use Slices.*
pub use Sorting.*
unfoldable pub use Sorting.{sort}
unfoldable pub use Lines.{lines}
pub use Prim.Native.Nat.{ℕ, zero, suc, ◌+◌, ◌-◌, ◌*◌, ◌/◌, ◌%◌, ◌^◌, ◌≤◌, ◌<◌, min}
pub use Prim.Native.String.{String}
pub use mathlib.Core.Path.{◌≡◌, refl, sym, ap, subst, ◌∙◌}
pub use mathlib.Core.Logic.{◌≢◌, ◌↔◌, ◌⊎◌, inl, inr}
pub use mathlib.Core.Bool.{Bool, true, false, not, ◌&&◌, ◌||◌}
pub use mathlib.Core.Option.{Option, none, some}
pub use mathlib.Core.List.{List, [], ◌∷◌, ◌++◌, map}
pub use native.Mathlib.Omega.{arith}
pub use text.Mathlib.Text.{◌==◌ as str_eq}
pub use text.Mathlib.TextEquality.{eq_iff as str_eq_iff}

-- ===== src/Common.antt =====
-- The names that the other modules share: the libraries', passed on, and those of the children.
-- Tests (Boolean tests and conditionals), Lists (lists over the native numbers), Strings (Rust's `str`
-- as a list of code points) and Maps (`HashSet` and `HashMap`).
mod Tests
mod Lists
mod Strings
mod Maps
mod Substring
mod Case
mod Entries
mod Pieces
mod Search
mod Bytes
mod Trimming
pub use Tests.*
unfoldable pub use Tests.{clamp}
pub use Lists.*
pub use Strings.*
pub use Maps.*
pub use Substring.*
pub use Case.*
pub use Entries.*
pub use Pieces.*
pub use Search.*
pub use Bytes.*
pub use Trimming.*
unfoldable pub use Strings.{
  text, text_eq, starts_with, strip_prefix, ends_with, strip_suffix, contains,
}
unfoldable pub use Strings.{
  is_whitespace, trim_start, trim_end, trim, lower, to_lowercase, split_on,
}
unfoldable pub use Strings.{digit_text, show_fuel, show_nat}
unfoldable pub use Search.{find_split, splitn_2}
unfoldable pub use Bytes.{utf8_char, utf8}
unfoldable pub use Maps.{set_contains, set_insert, lookup, insert, remove}
pub use Prim.Native.Nat.{ℕ, zero, suc, ◌+◌, ◌-◌, ◌*◌, ◌/◌, ◌%◌, ◌^◌, ◌≤◌, ◌<◌}
pub use Prim.Native.String.{String}
pub use mathlib.Core.Path.{◌≡◌, refl, sym, ap, subst, ◌∙◌}
pub use mathlib.Core.Logic.{◌≢◌, ◌↔◌, ◌⊎◌, inl, inr}
pub use mathlib.Core.Bool.{Bool, true, false, not, ◌&&◌, ◌||◌, false≢true}
pub use mathlib.Core.Option.{Option, none, some}
pub use mathlib.Core.List.{List, [], ◌∷◌, ◌++◌, map, reverse}
pub use native.Mathlib.Omega.{arith}

-- ===== src/Prelude.antt =====
-- The names that the other modules share: the libraries', passed on, and those of the children.
mod Tests
mod Lists
mod Int
mod Maps
mod Show
mod Text
mod Problems
mod Split
mod Decimal
mod Order
mod Word
mod Pieces
pub use Tests.*
pub use Lists.*
pub use Int.*
pub use Problems.*
unfoldable pub use Maps.*
unfoldable pub use Text.{
  trim_space, join, has_prefix, trim_prefix, drop_prefix, has_suffix, trim_suffix, contains,
  contains_any, translate, lower_letters, upper_letters, is_nil, is_space, size_text,
}
pub use Text.{is_nil-append}
unfoldable pub use Split.{split, cut, scan, scan_digits, atoi}
pub use Split.{int_limit}
pub use Decimal.{atoi-show, scan-show, show_nonempty}
unfoldable pub use Show.{show, show_ℤ, quote, quote_char, quote_all}
unfoldable pub use Word.{signed, wrap, times}
pub use Word.{times_small, times_pos}
pub use Pieces.{Lacks, split-append, split-Lacks, split-join}
pub use Order.Swaps.{Reordered, as_is, swapped, sort_entries-Reordered}
unfoldable pub use Order.{text_before, insert_entry, sort_entries}
pub use Prim.Native.Nat.{ℕ, zero, suc, ◌+◌, ◌-◌, ◌*◌, ◌/◌, ◌%◌, ◌^◌, ◌≤◌, ◌<◌}
pub use Prim.Native.String.{String, ◌++◌ as ◌+++◌}
pub use text.Mathlib.Text.{◌==◌}
pub use text.Mathlib.TextEquality.{eq_iff}
pub use text.Mathlib.TextPositions.{eq_refl}
pub use mathlib.Core.Path.{◌≡◌, refl, sym, ap, ◌∙◌, subst}
pub use mathlib.Core.Logic.{◌≢◌, ◌↔◌, ◌⊎◌, inl, inr}
pub use mathlib.Core.Bool.{Bool, true, false, not, ◌&&◌, ◌||◌}
pub use mathlib.Core.Option.{Option, none, some}
pub use mathlib.Core.List.{List, [], ◌∷◌, ◌++◌, map, append-nil, append_assoc}
pub use native.Mathlib.Omega.{arith}

-- ===== src/Base.antt =====
-- The names that the other modules share: the libraries', passed on, and those of the children.
mod Tests
mod Lists
mod Eq
mod Maps
mod Bytes
mod Sort
mod Order
mod Members
mod Affix
mod Decimal
mod Int
pub use Tests.*
pub use Lists.*
pub use Eq.*
pub use Int.*
pub use Maps.{
  lookup-insert, lookup-delete, beq_refl, any-keep, lookup-append_to, lookup-map, append_each,
  append_each-append, lookup-append_each, Entries, changed, lookup-modify, lookup-ensure,
  Entries-modify, Entries-insert, Entries-ensure, Entries-lookup,
}
unfoldable pub use Maps.{append_to, lookup, insert, delete, modify, ensure}
pub use Members.*
pub use Affix.{EndsWith, has_suffix_iff, rest_of_prefix, has_prefix-append}
pub use Decimal.{IsDigit, value_from, value_from-decimal, decimal-All}
unfoldable pub use Decimal.{digits, decimal}
pub use Bytes.{Str, codes, str_beq_iff}
unfoldable pub use Bytes.{
  str_beq, str_ltb, has_prefix, has_suffix, to_lower, trim_left, trim, trim_space, trim_suffix,
  split, join, trim_prefix, remove_spaces,
}
pub use Sort.{sort_by-perm}
pub use Order.{StrictlyAscending, Ascending, IsStrictOrder, sort_by-Ascending, str_order}
unfoldable pub use Sort.{sort_by}
pub use Prim.Native.Nat.{ℕ, zero, suc, ◌+◌, ◌-◌, ◌≤◌, ◌<◌}
pub use Prim.Native.String.{String}
pub use mathlib.Core.Path.{◌≡◌, refl, sym, ap, ◌∙◌, subst}
pub use mathlib.Core.Logic.{◌≢◌, ◌↔◌, ◌⊎◌, inl, inr}
pub use mathlib.Core.Bool.{Bool, true, false, ◌&&◌, ◌||◌, not}
pub use mathlib.Core.Option.{Option, none, some}
pub use mathlib.Core.List.{List, [], ◌∷◌, ◌++◌, map, reverse, Memᴰ, Permᴰ}
pub use native.Mathlib.Omega.{arith}

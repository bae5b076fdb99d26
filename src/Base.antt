-- ===== src/Base.antt =====
-- The names that the other modules share: the libraries', passed on, and those of the children.
mod Tests
mod Lists
mod Unique
pub mod Map
mod Text
mod Int
mod Members
pub use Tests.*
pub use Lists.*
pub use Unique.*
pub use Int.{ℤ, pos, negsuc}
pub use Int.Decimal.{parse_int-decimal}
unfoldable pub use Int.{parse_int, decimal, head_units, utf16_length}
pub use Members.*
pub use Text.{
  is_empty, trim_idem, IsInked, cons-IsInked, append-IsInked, letter-IsInked, trim-IsInked, push,
  split_words,
}
unfoldable pub use Text.{is_space, trim}
pub use Prim.Native.Nat.{ℕ, zero, suc, ◌+◌, ◌-◌, ◌*◌, ◌/◌, ◌%◌, ◌^◌, ◌≤◌, ◌<◌, max, min}
pub use Prim.Native.String.{String, ◌++◌ as append}
pub use text.Mathlib.TextLemmas.{append_assoc as text_append_assoc, cons-append, nil-append}
pub use mathlib.Core.Path.{◌≡◌, refl, sym, ap, ◌∙◌, subst}
pub use mathlib.Core.Logic.{◌≢◌, ◌↔◌, ◌⊎◌, inl, inr}
pub use mathlib.Core.Bool.{Bool, true, false, not, ◌&&◌, ◌||◌}
pub use mathlib.Core.Option.{Option, none, some}
pub use mathlib.Core.List.{List, [], ◌∷◌, ◌++◌, map}
pub use native.Mathlib.Omega.{arith}
pub use text.Mathlib.Text.{◌==◌}
pub use text.Mathlib.TextEquality.{eq_iff}
pub use text.Mathlib.TextPositions.{eq_refl}

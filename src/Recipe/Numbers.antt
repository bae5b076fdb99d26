-- ===== src/Recipe/Numbers.antt =====
-- The numbers of recipe-jsonld.normalizers.ts: JavaScript's floats are a parameter, with the
-- operations that the normalizers and the scores use of them. The patterns are matched by hand.
pub mod Words
pub mod Counts
pub mod Whole
use Prim.Native.Char.{Char, code}
use Prim.Native.String.{[], ◌∷◌}
use recipe_import_from_anyth.Base.{
  ℕ, Bool, not, ◌&&◌, ◌||◌, String, append, Option, none, some, leb, eqb, if◌then◌else◌, is_empty,
  is_space, trim,
}
use recipe_import_from_anyth.Value.{Value, num, str}

pub record Floats : Type 1 where
  pub Num : Type 0
  -- Number(text)
  pub to_number : String → Num
  -- Number.isFinite(x)
  pub is_finite : Num → Bool
  -- x < 0
  pub is_negative : Num → Bool
  -- x === 0
  pub is_zero : Num → Bool
  pub add : Num → Num → Num
  pub divide : Num → Num → Num
  pub multiply : Num → Num → Num
  -- Math.round(x)
  pub round : Num → Num
  -- Math.max(1, x)
  pub at_least_one : Num → Num
  -- the index of an item of an array
  pub of_index : ℕ → Num
  -- x > y
  pub is_above : Num → Num → Bool
  -- x >= y
  pub is_at_least : Num → Num → Bool
  -- Math.min(x, y)
  pub minimum : Num → Num → Num
  -- Math.max(x, y)
  pub maximum : Num → Num → Num

-- `\d`
abbrev pub is_digit : Char → Bool
is_digit c = leb b'0' (code c) && leb (code c) b'9'

-- The longest prefix whose characters pass the test, and the rest.
abbrev pub prepend : Char → String × String → String × String
prepend c (s, t) = (c ∷ s, t)

unfoldable pub span : (Char → Bool) → String → String × String
span p [] = ([], [])
span p (c ∷ s) = if p c then prepend c (span p s) else ([], c ∷ s)

-- `value.replace(",", ".")`: the first comma only
replace_comma : String → String
replace_comma [] = []
replace_comma (c ∷ s) =
    let rest = replace_comma s in if eqb (code c) b',' then append "." s else c ∷ rest

-- what follows "/" in `\/(\d+)$`
slash_digits : String → Option String
slash_digits [] = none
slash_digits (c ∷ s) =
    let (digits, rest) = span is_digit s in
    if eqb (code c) b'/' && not (is_empty digits) && is_empty rest then some digits else none

-- FRACTION_PATTERN, `^(\d+)\/(\d+)$`: the two groups
match_fraction : String → Option (String × String)
match_fraction s =
    let (numerator, rest) = span is_digit s in
    if is_empty numerator
    then none
    else elim (slash_digits rest) [ none ↦ none | some denominator ↦ some (numerator, denominator) ]

-- MIXED_FRACTION_PATTERN, `^(\d+)\s+(\d+)\/(\d+)$`: the three groups
match_mixed_fraction : String → Option (String × String × String)
match_mixed_fraction s =
    let (whole, rest) = span is_digit s in
    let (gap, fraction) = span is_space rest in
    if is_empty whole || is_empty gap then none else elim (match_fraction fraction) [
      | none ↦ none
      | some (numerator, denominator) ↦ some (whole, numerator, denominator)
    ]

module _ (F : Floats) where
  open F use {Num, to_number, is_finite, is_negative, is_zero, add, divide, round, at_least_one}

  abbrev pub finite : Num → Option Num
  finite x = if is_finite x then some x else none

  -- whole + numerator / denominator, where these are finite and the denominator is not 0
  mixed_value : Option (String × String × String) → Option Num
  mixed_value none = none
  mixed_value (some (w, n, d)) =
      let whole = to_number w in
      let numerator = to_number n in
      let denominator = to_number d in
      if is_finite whole
        && is_finite numerator
        && is_finite denominator
        && not (is_zero denominator)
      then some (add whole (divide numerator denominator))
      else none

  fraction_value : Option (String × String) → Option Num
  fraction_value none = none
  fraction_value (some (n, d)) =
      let numerator = to_number n in
      let denominator = to_number d in
      if is_finite numerator && is_finite denominator && not (is_zero denominator)
      then some (divide numerator denominator)
      else none

  abbrev first_of_three : Option Num → Option Num → Option Num → Option Num
  first_of_three (some x) b c = some x
  first_of_three none (some x) c = some x
  first_of_three none none c = c

  pub parse_string_number : String → Option Num
  parse_string_number value =
      let normalized = replace_comma (trim value) in
      if is_empty normalized
      then none
      else first_of_three (mixed_value (match_mixed_fraction normalized))
          (fraction_value (match_fraction normalized)) (finite (to_number normalized))

  unfoldable pub to_finite_number : Value Num → Option Num
  to_finite_number (num x) = finite x
  to_finite_number (str s) = parse_string_number s
  to_finite_number _ = none

  abbrev pub non_negative : Option Num → Option Num
  non_negative none = none
  non_negative (some x) = if is_negative x then none else some (round x)

  pub to_non_negative_integer : Value Num → Option Num
  to_non_negative_integer value = non_negative (to_finite_number value)

  abbrev pub positive : Option Num → Option Num
  positive none = none
  positive (some x) = if is_negative x || is_zero x then none else some (at_least_one (round x))

  -- `optionalPositiveIntegerSchema`
  pub to_positive_integer : Value Num → Option Num
  to_positive_integer value = positive (to_finite_number value)

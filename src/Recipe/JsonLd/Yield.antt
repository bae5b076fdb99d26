-- ===== src/Recipe/JsonLd/Yield.antt =====
-- The servings that recipe-jsonld.schema.ts derives from a recipe's yield, which is trimmed text or
-- a number.
use Prim.Native.Char.{Char, code}
use Prim.Native.String.{[], ◌∷◌}
use recipe_import_from_anyth.Base.{
  Bool, false, not, ◌||◌, ◌&&◌, String, append, Option, none, some, ◌or◌, eqb, if◌then◌else◌,
  is_empty, is_space,
}
use recipe_import_from_anyth.Value.{str}
use recipe_import_from_anyth.Recipe.Numbers.{Floats, is_digit, span, to_finite_number}
use recipe_import_from_anyth.Recipe.Texts.{to_non_empty_string}
use recipe_import_from_anyth.Recipe.JsonLd.{RecipeYield, yield_number, yield_text}

-- `[.,]`
abbrev is_point : Char → Bool
is_point c = eqb (code c) b'.' || eqb (code c) b','

-- `(?:[.,]\d+)?` after the digits of a number: the number and the rest
fraction_after : String → String → String × String
fraction_after digits [] = (digits, [])
fraction_after digits (c ∷ s) =
    let (decimals, rest) = span is_digit s in
    if is_point c && not (is_empty decimals)
    then (append digits (c ∷ decimals), rest)
    else (digits, c ∷ s)

-- `\d+(?:[.,]\d+)?` at the head of a text, and the rest
unfoldable pub leading_number : String → Option (String × String)
unfolding span fraction_after
leading_number s =
    let (digits, rest) = span is_digit s in
    if is_empty digits then none else some (fraction_after digits rest)

-- what `.` does not match
abbrev is_line_end : Char → Bool
is_line_end c = let k = code c in eqb k 10 || eqb k 13 || eqb k 0x2028 || eqb k 0x2029

has_line_end : String → Bool
has_line_end [] = false
has_line_end (c ∷ s) = is_line_end c || has_line_end s

-- `(?:\s+(.+))?$` after the number, on a text without white space at its end
abbrev remainder : String → String → Option (String × Option String)
remainder number rest =
    let (gap, words) = span is_space rest in
    if is_empty rest
    then some (number, none)
    else (if is_empty gap || is_empty words || has_line_end words
        then none
        else some (number, some words))

abbrev match_remainder : Option (String × String) → Option (String × Option String)
match_remainder none = none
match_remainder (some (number, rest)) = remainder number rest

-- LEADING_YIELD_QUANTITY_PATTERN: its two groups
match_yield : String → Option (String × Option String)
match_yield s = match_remainder (leading_number s)

module _ (F : Floats) where
  open F use {Num, is_finite, is_negative, is_zero, round, at_least_one}

  abbrev positive : Option Num → Option Num
  positive none = none
  positive (some x) = if is_negative x || is_zero x then none else some (at_least_one (round x))

  abbrev servings_of : Option (String × Option String) → Option Num
  servings_of none = none
  servings_of (some (number, words)) = positive (to_finite_number F (str number))

  pub derive_servings_from_recipe_yield : Option (RecipeYield Num) → Option Num
  derive_servings_from_recipe_yield none = none
  derive_servings_from_recipe_yield (some (yield_number x)) =
      if is_finite x && not (is_negative x) && not (is_zero x)
      then some (at_least_one (round x))
      else none
  derive_servings_from_recipe_yield (some (yield_text s)) = servings_of (match_yield s)

  abbrev label_of : String → Option (String × Option String) → String
  label_of s none = s
  label_of s (some (number, none)) = s
  label_of s (some (number, some words)) = to_non_empty_string {N = Num} (str words) or s

  unit_label_of_yield : Option (RecipeYield Num) → Option String
  unit_label_of_yield none = none
  unit_label_of_yield (some (yield_number x)) = none
  unit_label_of_yield (some (yield_text s)) = some (label_of s (match_yield s))

  pub derive_yield_unit_label : Option String → Option (RecipeYield Num) → Option String
  derive_yield_unit_label none yield = unit_label_of_yield yield
  derive_yield_unit_label (some label) yield =
      if is_empty label then unit_label_of_yield yield else some label

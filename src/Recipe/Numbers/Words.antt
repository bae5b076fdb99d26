-- ===== src/Recipe/Numbers/Words.antt =====
-- Texts that are not numbers.
use Prim.Native.Char.{Char, code}
use Prim.Native.String.{◌∷◌}
use recipe_import_from_anyth.Base.{◌≡◌, refl, false, String, none, eqb, trim}
use recipe_import_from_anyth.Value.{str}
use recipe_import_from_anyth.Recipe.Numbers.{
  Floats, is_digit, span, replace_comma, match_fraction, match_mixed_fraction, mixed_value,
  fraction_value, parse_string_number, to_finite_number, to_non_negative_integer,
}

match_fraction-word : (c : Char) (s : String) → is_digit c ≡ false → match_fraction (c ∷ s) ≡ none
unfolding match_fraction span
match_fraction-word c s h = rw h refl

match_mixed_fraction-word :
    (c : Char) (s : String) → is_digit c ≡ false → match_mixed_fraction (c ∷ s) ≡ none
unfolding match_mixed_fraction span
match_mixed_fraction-word c s h = rw h refl

module _ (F : Floats) where
  open F use {to_number, is_finite}

  parse_string_number-word :
      (c : Char) (s : String)
      → is_digit c ≡ false
      → eqb (code c) b',' ≡ false
      → ((t : String) → is_finite (to_number (c ∷ t)) ≡ false)
      → trim (c ∷ s) ≡ c ∷ s
      → parse_string_number F (c ∷ s) ≡ none
  unfolding parse_string_number replace_comma mixed_value fraction_value
  parse_string_number-word c s digit comma nan trimmed =
      rw
        (
          trimmed,
          comma,
          match_mixed_fraction-word c (replace_comma s) digit,
          match_fraction-word c (replace_comma s) digit,
          nan (replace_comma s),
        )
        refl

  -- What begins with neither a digit nor a comma is not read as an integer, where `Number` has no
  -- finite number for it.
  pub to_non_negative_integer-word :
      (c : Char) (s : String)
      → is_digit c ≡ false
      → eqb (code c) b',' ≡ false
      → ((t : String) → is_finite (to_number (c ∷ t)) ≡ false)
      → trim (c ∷ s) ≡ c ∷ s
      → to_non_negative_integer F (str (c ∷ s)) ≡ none
  unfolding to_finite_number to_non_negative_integer
  to_non_negative_integer-word c s digit comma nan trimmed =
      rw (to_non_negative_integer, parse_string_number-word c s digit comma nan trimmed) refl

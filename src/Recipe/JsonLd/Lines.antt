-- ===== src/Recipe/JsonLd/Lines.antt =====
-- The ingredients of a JSON-LD recipe, in recipe-jsonld.normalizers.ts: a line of text is read as a
-- quantity, a unit and a name. `toLowerCase` is an argument. The table of units is an object, which
-- has the properties of every object too: of their names, two are in small letters.
pub mod WellFormed
use Prim.Native.Char.{Char, code}
use Prim.Native.String.{[], ◌∷◌}
use mathlib.Core.Option
use recipe_import_from_anyth.Base.{
  ℕ, zero, suc, ◌+◌, ◌≤◌, ◌≡◌, ◌≢◌, refl, Bool, true, false, not, ◌||◌, ◌&&◌, String, ◌==◌, append,
  Option, none, some, ◌or◌, ◌or?◌, List, [], ◌∷◌, eqb, if◌then◌else◌, is_empty, trim, collect_from,
  nonempty_list, split_words, is_some, All, All-collect_from, nonempty_list-All, Option-cases, inl,
  inr, Bool-cases, subst, arith,
}
use recipe_import_from_anyth.Base.Map.{Map}
use recipe_import_from_anyth.Value.{
  Value, undefined, null, bool, num, str, arr, obj, items, get, coalesce,
}
use recipe_import_from_anyth.Recipe.Ingredients.{as_bool}
use recipe_import_from_anyth.Recipe.Numbers.{
  Floats, to_finite_number, to_non_negative_integer, parse_string_number,
}
use recipe_import_from_anyth.Recipe.Texts.{
  to_non_empty_string, to_non_empty_string-IsTidy, IsTidy, text_at,
}

abbrev normalized_ingredient_units : Map String
normalized_ingredient_units =
    ("g", "g")
    ∷ ("gram", "g")
    ∷ ("grams", "g")
    ∷ ("gr", "g")
    ∷ ("kg", "kg")
    ∷ ("ml", "ml")
    ∷ ("cl", "cl")
    ∷ ("dl", "dl")
    ∷ ("l", "l")
    ∷ ("cup", "cup")
    ∷ ("cups", "cup")
    ∷ ("tbsp", "tbsp")
    ∷ ("tsp", "tsp")
    ∷ ("oz", "oz")
    ∷ ("lb", "lb")
    ∷ ("pinch", "pinch")
    ∷ ("pinches", "pinch")
    ∷ ("slice", "slice")
    ∷ ("slices", "slice")
    ∷ ("can", "can")
    ∷ ("cans", "can")
    ∷ []

-- What a unit is: a text, or the property of that name that the table has as an object (a function,
-- or the prototype), which no schema checks again.
pub data IngredientUnit : Type 0 where
  written : String → IngredientUnit
  inherited : String → IngredientUnit

pub record NormalizedRecipeIngredient (N : Type 0) : Type 0 where
  pub name : String
  pub quantity : Option N
  pub unit : Option IngredientUnit
  pub note : Option String
  pub optional : Option Bool
  pub order : N
  pub raw : Option String

-- The properties of every object whose names are in small letters.
abbrev inherited_names : List String
inherited_names = "constructor" ∷ "__proto__" ∷ []

inherited_of : List String → String → Option IngredientUnit
inherited_of [] key = none
inherited_of (name ∷ names) key =
    let rest = inherited_of names key in if name == key then some (inherited name) else rest

-- `NORMALIZED_INGREDIENT_UNITS[key]`
unit_of_key : Map String → String → Option IngredientUnit
unit_of_key [] key = inherited_of inherited_names key
unit_of_key ((k, unit) ∷ units) key =
    let rest = unit_of_key units key in if k == key then some (written unit) else rest

-- `value.replace(/[()[\].]/g, "")`
abbrev is_mark : Char → Bool
is_mark c = let k = code c in eqb k b'(' || eqb k b')' || eqb k b'[' || eqb k b']' || eqb k b'.'

without_marks : String → String
without_marks [] = []
without_marks (c ∷ s) = let rest = without_marks s in if is_mark c then rest else c ∷ rest

-- `value.replace(/,+$/, "")`
without_commas : String → String
without_commas [] = []
without_commas (c ∷ s) =
    let rest = without_commas s in if eqb (code c) b',' && is_empty rest then [] else c ∷ rest

abbrev join_from : String → List String → String
join_from s [] = s
join_from s (t ∷ ts) = append s (append " " (join_from t ts))

-- `tokens.join(" ")`
abbrev join_tokens : List String → String
join_tokens [] = ""
join_tokens (s ∷ tokens) = join_from s tokens

-- `tokens.slice(n)`
drop : ℕ → List String → List String
drop zero tokens = tokens
drop (suc n) [] = []
drop (suc n) (s ∷ tokens) = drop n tokens

module _ (F : Floats) (lower : String → String) where
  open F use {Num, of_index}

  normalize_unit_token : String → Option IngredientUnit
  normalize_unit_token value =
      unit_of_key normalized_ingredient_units (without_commas (without_marks (lower (trim value))))

  abbrev direct_quantity : Option Num → Option Num × ℕ
  direct_quantity none = (none, 0)
  direct_quantity (some quantity) = (some quantity, 1)

  abbrev mixed_quantity : Option Num → Option Num → Option Num × ℕ
  mixed_quantity (some quantity) direct = (some quantity, 2)
  mixed_quantity none direct = direct_quantity direct

  -- the quantity, and how many tokens it takes
  parse_leading_quantity : List String → Option Num × ℕ
  parse_leading_quantity [] = (none, 0)
  parse_leading_quantity (a ∷ []) = direct_quantity (parse_string_number F a)
  parse_leading_quantity (a ∷ b ∷ tokens) =
      mixed_quantity (parse_string_number F (append a (append " " b))) (parse_string_number F a)

  -- the unit at the head of the tokens after a quantity
  abbrev unit_after : Option Num → List String → Option IngredientUnit
  unit_after (some quantity) (token ∷ tokens) = normalize_unit_token token
  unit_after _ tokens = none

  abbrev after_unit : Option IngredientUnit → List String → List String
  after_unit none tokens = tokens
  after_unit (some unit) tokens = drop 1 tokens

  abbrev name_or : String → String → String
  name_or raw name = if is_empty name then raw else name

  line_of : ℕ → String → NormalizedRecipeIngredient Num
  line_of index raw =
      let tokens = split_words raw in
      let (quantity, consumed) = parse_leading_quantity tokens in
      let rest = drop consumed tokens in
      let unit = unit_after quantity rest in
      record {
        name = name_or raw (trim (join_tokens (after_unit unit rest)));
        quantity = quantity;
        unit = unit;
        note = none;
        optional = none;
        order = of_index index;
        raw = some raw;
      }

  parse_ingredient_line : ℕ → Option String → Option (NormalizedRecipeIngredient Num)
  parse_ingredient_line index none = none
  parse_ingredient_line index (some raw) = some (line_of index raw)

  entry_of : ℕ → Value Num → Option String → Option (NormalizedRecipeIngredient Num)
  entry_of index entry none = none
  entry_of index entry (some name) = some (record {
    name = name;
    quantity = to_finite_number F (coalesce (get "quantity" entry) (get "amount" entry));
    unit = Option.map written (text_at "unit" entry);
    note = text_at "note" entry;
    optional = as_bool (get "optional" entry);
    order =
        to_non_negative_integer F (coalesce (get "order" entry) (get "index" entry))
        or of_index index;
    raw = text_at "raw" entry or? text_at "line" entry or? text_at "text" entry;
  })

  abbrev entry_name : Value Num → Option String
  entry_name entry =
      text_at "name" entry
      or? text_at "ingredient" entry
      or? text_at "line" entry
      or? text_at "text" entry

  normalize_line : ℕ → Value Num → Option (NormalizedRecipeIngredient Num)
  normalize_line index (str s) = parse_ingredient_line index (to_non_empty_string {N = Num} (str s))
  normalize_line index (obj fs) = entry_of index (obj fs) (entry_name (obj fs))
  normalize_line index _ = none

  -- `normalizeIngredientList`
  pub normalize_ingredient_lines : Value Num → Option (List (NormalizedRecipeIngredient Num))
  normalize_ingredient_lines (arr xs) = nonempty_list (collect_from normalize_line 0 (items xs))
  normalize_ingredient_lines _ = none

-- ===== src/Recipe/Ingredients.antt =====
-- The ingredients and instructions of canonical-recipe.schema.ts.
pub mod Order
pub mod WellFormed
pub mod Again
pub mod Steps
use recipe_import_from_anyth.Base.{
  ℕ, Bool, true, false, ◌||◌, String, Option, none, some, List, [], ◌∷◌, if◌then◌else◌, ◌or?◌,
  collect_from, nonempty_list,
}
use recipe_import_from_anyth.Value.{
  Value, undefined, null, bool, num, str, arr, obj, items, get, coalesce,
}
use recipe_import_from_anyth.Recipe.Numbers.{Floats, to_finite_number}
use recipe_import_from_anyth.Recipe.Texts.{to_non_empty_string, text_at}
use recipe_import_from_anyth.Recipe.Types.{CanonicalIngredient, CanonicalInstruction}

-- `typeof entry.optional === "boolean" ? entry.optional : undefined`
abbrev pub as_bool : {N : Type 0} → Value N → Option Bool
as_bool (bool b) = some b
as_bool _ = none

module _ (F : Floats) where
  open F use {Num, is_negative, round, of_index}

  -- `order !== undefined && order >= 0 ? Math.round(order) : index`
  pub order_or : Option Num → ℕ → Num
  order_or none index = of_index index
  order_or (some x) index = if is_negative x then of_index index else round x

  pub ingredient_raw : Value Num → Option String
  ingredient_raw entry =
      text_at "raw" entry
      or? text_at "line" entry
      or? text_at "text" entry
      or? text_at "ingredient" entry

  pub ingredient_name : Value Num → Option String
  ingredient_name entry =
      text_at "name" entry
      or? text_at "ingredient" entry
      or? text_at "line" entry
      or? text_at "text" entry
      or? ingredient_raw entry

  named_ingredient : ℕ → Value Num → Option String → Option (CanonicalIngredient Num)
  named_ingredient index entry none = none
  named_ingredient index entry (some name) = some (record {
    name = name;
    quantity = to_finite_number F (coalesce (get "quantity" entry) (get "amount" entry));
    unit = text_at "unit" entry;
    note = text_at "note" entry;
    optional = as_bool (get "optional" entry);
    order = order_or (to_finite_number F (coalesce (get "order" entry) (get "index" entry))) index;
    raw = ingredient_raw entry;
  })

  text_ingredient : ℕ → Option String → Option (CanonicalIngredient Num)
  text_ingredient index none = none
  text_ingredient index (some raw) = some (record {
    name = raw;
    quantity = none;
    unit = none;
    note = none;
    optional = none;
    order = of_index index;
    raw = some raw;
  })

  normalize_ingredient : ℕ → Value Num → Option (CanonicalIngredient Num)
  normalize_ingredient index (str s) = text_ingredient index (to_non_empty_string {N = Num} (str s))
  normalize_ingredient index (obj fs) = named_ingredient index (obj fs) (ingredient_name (obj fs))
  normalize_ingredient index _ = none

  pub normalize_ingredient_list : Value Num → Option (List (CanonicalIngredient Num))
  normalize_ingredient_list (arr xs) =
      nonempty_list (collect_from normalize_ingredient 0 (items xs))
  normalize_ingredient_list _ = none

  -- `durationMin !== undefined && durationMin >= 0 ? { durationMin: Math.round(durationMin) } : {}`
  duration_of : Option Num → Option Num
  duration_of none = none
  duration_of (some x) = if is_negative x then none else some (round x)

  instruction_with : ℕ → Value Num → Option String → Option (CanonicalInstruction Num)
  instruction_with index entry none = none
  instruction_with index entry (some text) = some (record {
    text = text;
    order = order_or (to_finite_number F (coalesce (get "order" entry) (get "index" entry))) index;
    duration_min =
        duration_of
          (to_finite_number F (coalesce (get "durationMin" entry) (get "duration" entry)));
  })

  text_instruction : ℕ → Option String → Option (CanonicalInstruction Num)
  text_instruction index none = none
  text_instruction index (some text) =
      some (record { text = text; order = of_index index; duration_min = none })

  normalize_instruction : ℕ → Value Num → Option (CanonicalInstruction Num)
  normalize_instruction index (str s) =
      text_instruction index (to_non_empty_string {N = Num} (str s))
  normalize_instruction index (obj fs) =
      instruction_with index (obj fs) (text_at "text" (obj fs) or? text_at "name" (obj fs))
  normalize_instruction index _ = none

  pub normalize_instruction_list : Value Num → Option (List (CanonicalInstruction Num))
  normalize_instruction_list (arr xs) =
      nonempty_list (collect_from normalize_instruction 0 (items xs))
  normalize_instruction_list _ = none

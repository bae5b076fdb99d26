-- ===== src/Recipe/Canonical.antt =====
-- packages/domain/src/schemas/canonical-recipe.schema.ts: the canonical recipe that a value of
-- unknown shape stands for. The types that the zod schemas check after each preprocessing step are
-- those of the records of Recipe/Types.
pub mod WellFormed
pub mod Parts
pub mod Again
pub mod Whole
mod Examples
use recipe_import_from_anyth.Base.{
  ℕ, Bool, true, false, not, ◌&&◌, ◌||◌, String, ◌==◌, Option, none, some, List, [], ◌∷◌,
  if◌then◌else◌, is_some, ◌or◌, ◌or?◌,
}
use recipe_import_from_anyth.Value.{
  Value, undefined, null, bool, num, str, arr, obj, end, get, is_record,
}
use recipe_import_from_anyth.Recipe.Numbers.{
  Floats, to_finite_number, to_non_negative_integer, to_positive_integer,
}
use recipe_import_from_anyth.Recipe.Texts.{to_non_empty_string, text_at}
use recipe_import_from_anyth.Recipe.Lists.{normalize_image, normalize_string_list}
use recipe_import_from_anyth.Recipe.Lists.Enums.{
  difficulties, budgets, recipe_attributes, recipe_categories, normalize_enum_value,
  normalize_enum_values,
}
use recipe_import_from_anyth.Recipe.Types.{
  CanonicalIngredient, CanonicalInstruction, CanonicalNutrition, AuthorType, person, organization,
  CanonicalAuthor, CanonicalRecipe,
}
use recipe_import_from_anyth.Recipe.Ingredients.{
  normalize_ingredient_list, normalize_instruction_list,
}

-- `Object.values(nutrition).some((entry) => entry !== undefined) ? nutrition : undefined`
pub if_any : CanonicalNutrition → Option CanonicalNutrition
if_any n =
    if is_some n.calories
      || is_some n.protein_content
      || is_some n.fat_content
      || is_some n.carbohydrate_content
      || is_some n.fiber_content
      || is_some n.sodium_content
    then some n
    else none

abbrev named_author : Option String → Option CanonicalAuthor → Option CanonicalAuthor
named_author (some name) rest = some (record { name = some name; kind = none })
named_author none rest = rest

pub author_of : Option String → Option AuthorType → Option CanonicalAuthor
author_of none none = none
author_of name kind = some (record { name = name; kind = kind })

module _ {N : Type 0} where
  pub normalize_nutrition : Value N → Option CanonicalNutrition
  normalize_nutrition value =
      if is_record value
      then if_any (record {
        calories = text_at "calories" value;
        protein_content = text_at "proteinContent" value;
        fat_content = text_at "fatContent" value;
        carbohydrate_content = text_at "carbohydrateContent" value;
        fiber_content = text_at "fiberContent" value;
        sodium_content = text_at "sodiumContent" value;
      })
      else none

  -- `v === "Person" || v === "Organization" ? v : undefined`
  pub author_type : Value N → Option AuthorType
  author_type (str s) =
      if s == "Person" then some person else if s == "Organization" then some organization else none
  author_type _ = none

  pub normalize_author : Value N → Option CanonicalAuthor
  normalize_author value = named_author (to_non_empty_string value) (
      if is_record value
      then author_of (text_at "name" value)
          (author_type (get "type" value) or? author_type (get "@type" value))
      else none)

module _ (F : Floats) (upper : String → String) where
  open F use {Num}

  -- The fields of an object, once the schema's preprocessing has read them.
  from_object : Value Num → CanonicalRecipe Num
  from_object value = record {
    name = text_at "name" value;
    description = text_at "description" value;
    servings = to_positive_integer F (get "servings" value);
    yield_unit_label = text_at "yieldUnitLabel" value;
    prep_time_min = to_non_negative_integer F (get "prepTimeMin" value);
    cook_time_min =
        to_non_negative_integer F (get "cookTimeMin" value)
        or? to_non_negative_integer F (get "totalTimeMin" value);
    difficulty = normalize_enum_value upper (get "difficulty" value) difficulties;
    budget = normalize_enum_value upper (get "budget" value) budgets;
    categories = normalize_enum_values upper (get "categories" value) recipe_categories;
    attributes = normalize_enum_values upper (get "attributes" value) recipe_attributes;
    ingredients = normalize_ingredient_list F (get "ingredients" value);
    instructions = normalize_instruction_list F (get "instructions" value);
    image = normalize_image (get "image" value);
    author = normalize_author (get "author" value);
    nutrition = normalize_nutrition (get "nutrition" value);
    keywords = normalize_string_list (get "keywords" value);
    cuisine = text_at "cuisine" value;
  }

  -- What is no object is read as the empty object.
  pub normalize_canonical_recipe : Value Num → CanonicalRecipe Num
  normalize_canonical_recipe value = from_object (if is_record value then value else obj end)

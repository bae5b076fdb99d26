-- ===== src/Recipe/JsonLd/Schema.antt =====
-- `RecipeJsonLdSchema` of recipe-jsonld.schema.ts: the JSON-LD recipe that a value of unknown shape
-- stands for. The types that the zod schemas check after each preprocessing step are those of the
-- records.
pub mod WellFormed
mod Examples
use recipe_import_from_anyth.Base.{
  ◌≡◌, refl, Bool, true, false, String, Option, none, some, List, [], ◌∷◌, if◌then◌else◌, ◌or◌,
  ◌or?◌,
}
use recipe_import_from_anyth.Value.{
  Value, undefined, str, arr, obj, Items, nil, cons, end, get, is_record,
}
use recipe_import_from_anyth.Recipe.Numbers.{Floats, to_non_negative_integer, to_positive_integer}
use recipe_import_from_anyth.Recipe.Texts.{text_at}
use recipe_import_from_anyth.Recipe.Lists.{Image, normalize_image, normalize_string_array}
use recipe_import_from_anyth.Recipe.Lists.Enums.{
  difficulties, budgets, recipe_attributes, recipe_categories, normalize_enum_value,
  normalize_enum_values,
}
use recipe_import_from_anyth.Recipe.Types.{CanonicalNutrition, CanonicalAuthor}
use recipe_import_from_anyth.Recipe.JsonLd.{
  Instruction, AggregateRating, RecipeYield, normalize_instructions, normalize_nutrition,
  normalize_author, normalize_recipe_type, normalize_aggregate_rating, normalize_recipe_yield,
}
use recipe_import_from_anyth.Recipe.JsonLd.Lines.{
  NormalizedRecipeIngredient, normalize_ingredient_lines,
}
use recipe_import_from_anyth.Recipe.JsonLd.Durations.{normalize_minutes}
use recipe_import_from_anyth.Recipe.JsonLd.Yield.{
  derive_servings_from_recipe_yield, derive_yield_unit_label,
}

-- `is_recipe` tells whether "@type" is "Recipe".
pub record RecipeJsonLd (N : Type 0) : Type 0 where
  pub context : Option String
  pub is_recipe : Bool
  pub name : Option String
  pub description : Option String
  pub author : Option CanonicalAuthor
  pub date_published : Option String
  pub prep_time : Option String
  pub cook_time : Option String
  pub total_time : Option String
  pub recipe_yield : Option (RecipeYield N)
  pub servings : Option N
  pub yield_unit_label : Option String
  pub prep_time_min : Option N
  pub cook_time_min : Option N
  pub total_time_min : Option N
  pub difficulty : Option String
  pub budget : Option String
  pub categories : Option (List String)
  pub attributes : Option (List String)
  pub recipe_ingredient : Option (List String)
  pub ingredients : Option (List (NormalizedRecipeIngredient N))
  pub instructions : Option (List Instruction)
  pub nutrition : Option CanonicalNutrition
  pub image : Option Image
  pub keywords : Option String
  pub cuisine : Option String
  pub aggregate_rating : Option (AggregateRating N)

module _ {N : Type 0} where
  abbrev text_value : Option String → Value N
  text_value none = undefined
  text_value (some s) = str s

  text_items : List String → Items N
  text_items [] = nil
  text_items (s ∷ texts) = cons (str s) (text_items texts)

  abbrev texts_value : Option (List String) → Value N
  texts_value none = undefined
  texts_value (some texts) = arr (text_items texts)

module _ (F : Floats) where
  open F use {Num, add, of_index}

  -- the time that is given in minutes, or else by its text
  abbrev minutes_of : Option Num → Option String → Option Num
  minutes_of minutes text = minutes or? normalize_minutes F (text_value text)

  -- the sum of the two times, where there is one of them
  abbrev sum_of : Option Num → Option Num → Option Num
  sum_of none none = none
  sum_of prep cook = some (add (prep or of_index 0) (cook or of_index 0))

module _ (F : Floats) (upper lower : String → String) where
  open F use {Num}

  from_record : Value Num → RecipeJsonLd Num
  from_record value =
      let recipe_ingredient = normalize_string_array (get "recipeIngredient" value) in
      let recipe_yield = normalize_recipe_yield F (get "recipeYield" value) in
      let prep =
        minutes_of F (to_non_negative_integer F (get "prepTimeMin" value))
          (text_at "prepTime" value) in
      let cook =
        minutes_of F (to_non_negative_integer F (get "cookTimeMin" value))
          (text_at "cookTime" value) in
      record {
        context = text_at "@context" value;
        is_recipe = normalize_recipe_type (get "@type" value);
        name = text_at "name" value;
        description = text_at "description" value;
        author = normalize_author (get "author" value);
        date_published = text_at "datePublished" value;
        prep_time = text_at "prepTime" value;
        cook_time = text_at "cookTime" value;
        total_time = text_at "totalTime" value;
        recipe_yield = recipe_yield;
        servings =
            to_positive_integer F (get "servings" value)
            or? derive_servings_from_recipe_yield F recipe_yield;
        yield_unit_label = derive_yield_unit_label F (text_at "yieldUnitLabel" value) recipe_yield;
        prep_time_min = prep;
        cook_time_min = cook;
        total_time_min =
            to_non_negative_integer F (get "totalTimeMin" value)
            or? normalize_minutes F (text_value (text_at "totalTime" value))
            or? sum_of F prep cook;
        difficulty = normalize_enum_value upper (get "difficulty" value) difficulties;
        budget = normalize_enum_value upper (get "budget" value) budgets;
        categories = normalize_enum_values upper (get "categories" value) recipe_categories;
        attributes = normalize_enum_values upper (get "attributes" value) recipe_attributes;
        recipe_ingredient = recipe_ingredient;
        ingredients =
            normalize_ingredient_lines F lower (get "ingredients" value)
            or? normalize_ingredient_lines F lower (texts_value recipe_ingredient);
        instructions =
            normalize_instructions (get "instructions" value)
            or? normalize_instructions (get "recipeInstructions" value);
        nutrition = normalize_nutrition (get "nutrition" value);
        image = normalize_image (get "image" value);
        keywords = text_at "keywords" value;
        cuisine = text_at "cuisine" value;
        aggregate_rating = normalize_aggregate_rating F (get "aggregateRating" value);
      }

  pub normalize_recipe_json_ld : Value Num → RecipeJsonLd Num
  normalize_recipe_json_ld value = from_record (if is_record value then value else obj end)

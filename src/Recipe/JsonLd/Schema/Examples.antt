-- ===== src/Recipe/JsonLd/Schema/Examples.antt =====
-- A recipe with lines of ingredients and one time.
use recipe_import_from_anyth.Base.{String}
use recipe_import_from_anyth.Value.{Value, arr, nil, cons, obj, field, end, str}
use recipe_import_from_anyth.Recipe.JsonLd.Durations.Examples.{whole_numbers}
use recipe_import_from_anyth.Recipe.JsonLd.Schema.{normalize_recipe_json_ld}
use recipe_import_from_anyth.Recipe.JsonLd.Schema.WellFormed.{
  IsWellFormed, normalize_recipe_json_ld-IsWellFormed,
}

abbrev same : String → String
same s = s

abbrev bread : Value whole_numbers.Num
bread = obj (
    field "name" (str " Bread ") (
      field "prepTime" (str "PT20M") (
        field "recipeIngredient"
          (arr (cons (str "500 g flour") (cons (str "1 1/2 cups water") nil))) end)))

normalize_recipe_json_ld-IsWellFormed_example :
    IsWellFormed (normalize_recipe_json_ld whole_numbers same same bread)
normalize_recipe_json_ld-IsWellFormed_example =
    normalize_recipe_json_ld-IsWellFormed whole_numbers same same bread

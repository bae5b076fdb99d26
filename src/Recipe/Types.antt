-- ===== src/Recipe/Types.antt =====
-- packages/domain/src/schemas/canonical-recipe.schema.ts: the canonical recipe.
use recipe_import_from_anyth.Base.{Bool, String, Option, List}
use recipe_import_from_anyth.Recipe.Lists.{Image}

pub record CanonicalIngredient (N : Type 0) : Type 0 where
  pub name : String
  pub quantity : Option N
  pub unit : Option String
  pub note : Option String
  pub optional : Option Bool
  pub order : N
  pub raw : Option String

pub record CanonicalInstruction (N : Type 0) : Type 0 where
  pub text : String
  pub order : N
  pub duration_min : Option N

pub record CanonicalNutrition : Type 0 where
  pub calories : Option String
  pub protein_content : Option String
  pub fat_content : Option String
  pub carbohydrate_content : Option String
  pub fiber_content : Option String
  pub sodium_content : Option String

pub data AuthorType : Type 0 where
  person organization : AuthorType

pub record CanonicalAuthor : Type 0 where
  pub name : Option String
  pub kind : Option AuthorType

pub record CanonicalRecipe (N : Type 0) : Type 0 where
  pub name : Option String
  pub description : Option String
  pub servings : Option N
  pub yield_unit_label : Option String
  pub prep_time_min : Option N
  pub cook_time_min : Option N
  pub difficulty : Option String
  pub budget : Option String
  pub categories : Option (List String)
  pub attributes : Option (List String)
  pub ingredients : Option (List (CanonicalIngredient N))
  pub instructions : Option (List (CanonicalInstruction N))
  pub image : Option Image
  pub author : Option CanonicalAuthor
  pub nutrition : Option CanonicalNutrition
  pub keywords : Option (List String)
  pub cuisine : Option String

-- ===== src/Recipe/JsonLd/Schema/WellFormed.antt =====
-- What holds of the JSON-LD recipe of any value.
use recipe_import_from_anyth.Base.{
  refl, ◌≡◌, ◌≢◌, String, Option, none, some, [], ◌or?◌, OnSome, OnSome-intro, All,
}
use mathlib.Core.List.{Memᴰ}
use recipe_import_from_anyth.Value.{Value, get}
use recipe_import_from_anyth.Recipe.Numbers.{Floats}
use recipe_import_from_anyth.Recipe.Texts.{IsTidy, text_at-IsTidy}
use recipe_import_from_anyth.Recipe.Lists.Enums.{
  difficulties, budgets, recipe_attributes, recipe_categories, normalize_enum_value_iff,
  normalize_enum_values-IsSelection, IsSelection,
}
use recipe_import_from_anyth.Recipe.Ingredients.WellFormed.{or?-OnSome}
use recipe_import_from_anyth.Recipe.JsonLd.{
  IsStep, normalize_instructions, normalize_instructions-IsStep,
}
use recipe_import_from_anyth.Recipe.JsonLd.Lines.{normalize_ingredient_lines}
use recipe_import_from_anyth.Recipe.JsonLd.Lines.WellFormed.{
  IsLine, normalize_ingredient_lines-IsLine,
}
use recipe_import_from_anyth.Recipe.JsonLd.Schema.{
  RecipeJsonLd, from_record, sum_of, normalize_recipe_json_ld,
}

-- A recipe whose main texts are trimmed and not empty, whose enumeration values are entries of
-- their enumerations, and whose ingredients and instructions are listed with their texts; its total
-- time is there when one of the other two is.
pub record IsWellFormed {N : Type 0} (r : RecipeJsonLd N) : Type 0 where
  pub name : OnSome IsTidy r.name
  pub description : OnSome IsTidy r.description
  pub keywords : OnSome IsTidy r.keywords
  pub difficulty : OnSome (λ d. Memᴰ d difficulties) r.difficulty
  pub budget : OnSome (λ b. Memᴰ b budgets) r.budget
  pub categories : OnSome (IsSelection recipe_categories) r.categories
  pub attributes : OnSome (IsSelection recipe_attributes) r.attributes
  pub ingredients : OnSome (λ xs. All IsLine xs × (xs ≢ [])) r.ingredients
  pub instructions : OnSome (λ xs. All IsStep xs × (xs ≢ [])) r.instructions
  pub total : r.total_time_min ≡ none → (r.prep_time_min ≡ none) × (r.cook_time_min ≡ none)

module _ (F : Floats) (upper lower : String → String) where
  total-none :
      (total text prep cook : Option F.Num)
      → (total or? text or? sum_of F prep cook) ≡ none
      → (prep ≡ none) × (cook ≡ none)
  total-none none none none none e = (refl, refl)
  total-none none none none (some c) e = cc
  total-none none none (some p) cook e = cc
  total-none none (some t) prep cook e = cc
  total-none (some t) text prep cook e = cc

  lines-IsLine :
      (v w : Value F.Num)
      → OnSome
          (λ xs. All IsLine xs × (xs ≢ []))
          (normalize_ingredient_lines F lower v or? normalize_ingredient_lines F lower w)
  lines-IsLine v w =
      or?-OnSome (λ xs. All IsLine xs × (xs ≢ [])) (normalize_ingredient_lines F lower v)
        (normalize_ingredient_lines F lower w)
        (OnSome-intro _ (normalize_ingredient_lines-IsLine F lower v))
        (OnSome-intro _ (normalize_ingredient_lines-IsLine F lower w))

  steps-IsStep :
      (v w : Value F.Num)
      → OnSome
          (λ xs. All IsStep xs × (xs ≢ []))
          (normalize_instructions v or? normalize_instructions w)
  steps-IsStep v w =
      or?-OnSome (λ xs. All IsStep xs × (xs ≢ [])) (normalize_instructions v)
        (normalize_instructions w) (OnSome-intro _ (normalize_instructions-IsStep v))
        (OnSome-intro _ (normalize_instructions-IsStep w))

  from_record-IsWellFormed : (value : Value F.Num) → IsWellFormed (from_record F upper lower value)
  unfolding from_record
  from_record-IsWellFormed value = record {
    name = text_at-IsTidy "name" value;
    description = text_at-IsTidy "description" value;
    keywords = text_at-IsTidy "keywords" value;
    difficulty =
        OnSome-intro _
          (λ d e. ((normalize_enum_value_iff upper (get "difficulty" value) difficulties d).0 e).2);
    budget =
        OnSome-intro _
          (λ b e. ((normalize_enum_value_iff upper (get "budget" value) budgets b).0 e).2);
    categories =
        OnSome-intro _
          (normalize_enum_values-IsSelection upper (get "categories" value) recipe_categories);
    attributes =
        OnSome-intro _
          (normalize_enum_values-IsSelection upper (get "attributes" value) recipe_attributes);
    ingredients = lines-IsLine (get "ingredients" value) _;
    instructions = steps-IsStep (get "instructions" value) (get "recipeInstructions" value);
    total = total-none _ _ _ _;
  }

  -- The JSON-LD recipe of any value, whatever its shape, is well-formed: its name, description and
  -- keywords are trimmed and not empty, its enumeration values are entries of their enumerations,
  -- its ingredients and instructions are not empty lists whose texts are trimmed and not empty,
  -- each ingredient has a name and each instruction a text or a name, and there is a total time
  -- where there is one of preparation or cooking. A unit that is no text is what every object has
  -- under the name "constructor" or "__proto__".
  pub normalize_recipe_json_ld-IsWellFormed :
      (value : Value F.Num) → IsWellFormed (normalize_recipe_json_ld F upper lower value)
  unfolding normalize_recipe_json_ld
  normalize_recipe_json_ld-IsWellFormed value = from_record-IsWellFormed _

-- ===== src/Recipe/Canonical/WellFormed.antt =====
-- What holds of the canonical recipe of any value.
use recipe_import_from_anyth.Base.{◌≢◌, String, [], OnSome, OnSome-intro, All}
use mathlib.Core.List.{Memᴰ}
use recipe_import_from_anyth.Value.{Value, get}
use recipe_import_from_anyth.Recipe.Numbers.{Floats}
use recipe_import_from_anyth.Recipe.Texts.{IsTidy, text_at-IsTidy}
use recipe_import_from_anyth.Recipe.Lists.{IsTidyList, normalize_string_list-IsTidyList}
use recipe_import_from_anyth.Recipe.Lists.Enums.{
  difficulties, budgets, recipe_attributes, recipe_categories, normalize_enum_value_iff,
  normalize_enum_values-IsSelection, IsSelection,
}
use recipe_import_from_anyth.Recipe.Types.{CanonicalRecipe}
use recipe_import_from_anyth.Recipe.Ingredients.WellFormed.{
  IsNamed, HasText, normalize_ingredient_list-IsNamed, normalize_instruction_list-HasText,
}
use recipe_import_from_anyth.Recipe.Canonical.{from_object, normalize_canonical_recipe}

-- A recipe whose main texts are trimmed and not empty, whose enumeration values are entries of
-- their enumerations, whose lists of texts are not empty and hold no text twice, and all of whose
-- ingredients and instructions have a text.
pub record IsWellFormed {N : Type 0} (r : CanonicalRecipe N) : Type 0 where
  pub name : OnSome IsTidy r.name
  pub description : OnSome IsTidy r.description
  pub cuisine : OnSome IsTidy r.cuisine
  pub difficulty : OnSome (λ d. Memᴰ d difficulties) r.difficulty
  pub budget : OnSome (λ b. Memᴰ b budgets) r.budget
  pub categories : OnSome (IsSelection recipe_categories) r.categories
  pub attributes : OnSome (IsSelection recipe_attributes) r.attributes
  pub ingredients : OnSome (λ xs. All IsNamed xs × (xs ≢ [])) r.ingredients
  pub instructions : OnSome (λ xs. All HasText xs × (xs ≢ [])) r.instructions
  pub keywords : OnSome IsTidyList r.keywords

module _ (F : Floats) (upper : String → String) where
  from_object-IsWellFormed : (value : Value F.Num) → IsWellFormed (from_object F upper value)
  unfolding from_object
  from_object-IsWellFormed value = record {
    name = text_at-IsTidy "name" value;
    description = text_at-IsTidy "description" value;
    cuisine = text_at-IsTidy "cuisine" value;
    difficulty =
        OnSome-intro _
          (λ d e. ((normalize_enum_value_iff upper (get "difficulty" value) difficulties d).0 e).2);
    budget =
        OnSome-intro _
          (λ b e. ((normalize_enum_value_iff upper (get "budget" value) budgets b).0 e).2);
    categories =
        OnSome-intro _
          (normalize_enum_values-IsSelection upper (get "categories" value) recipe_categories);
    attributes =
        OnSome-intro _
          (normalize_enum_values-IsSelection upper (get "attributes" value) recipe_attributes);
    ingredients = OnSome-intro _ (normalize_ingredient_list-IsNamed F (get "ingredients" value));
    instructions = OnSome-intro _ (normalize_instruction_list-HasText F (get "instructions" value));
    keywords = OnSome-intro _ (normalize_string_list-IsTidyList (get "keywords" value));
  }

  -- The canonical recipe of any value, whatever its shape, is well-formed: its name, description
  -- and cuisine are trimmed and not empty, its enumeration values are entries of their
  -- enumerations, its ingredients and instructions are not empty lists, each with a trimmed text
  -- that is not empty, and its categories, attributes and keywords are not empty lists that hold no
  -- text twice.
  pub normalize_canonical_recipe-IsWellFormed :
      (value : Value F.Num) → IsWellFormed (normalize_canonical_recipe F upper value)
  unfolding normalize_canonical_recipe
  normalize_canonical_recipe-IsWellFormed value = from_object-IsWellFormed _

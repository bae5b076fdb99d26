-- ===== src/Recipe/Canonical/Again.antt =====
-- A canonical recipe that is normalized again is as it was. `ImportResult` does so with each
-- recipe.
use recipe_import_from_anyth.Base.{
  ◌≡◌, refl, ap, ◌∙◌, true, String, Option, some, List, All, ◌or?◌, OnSome, OnSome-intro, is_space,
  trim,
}
use recipe_import_from_anyth.Value.{Value, undefined, num, str, arr, get, lookup, is_record}
use recipe_import_from_anyth.Recipe.Numbers.{Floats, to_non_negative_integer, to_positive_integer}
use recipe_import_from_anyth.Recipe.Numbers.Counts.{
  FloatLaws, IsFinite, non_negative_integer-IsWhole, IsWhole, whole-read, positive_integer-read,
  non_negative_integer-missing, positive_integer-missing,
}
use recipe_import_from_anyth.Recipe.Lists.{text_items, normalize_image}
use recipe_import_from_anyth.Recipe.Lists.Again.{image_value, image-read, image-missing}
use recipe_import_from_anyth.Recipe.Lists.Enums.{
  difficulties, budgets, recipe_attributes, recipe_categories, normalize_enum_value,
  normalize_enum_value_iff, normalize_enum_values, normalize_enum_values-IsSelection,
}
use recipe_import_from_anyth.Recipe.Lists.Enums.Again.{
  is_capital, are_entries, enum_value-read, enum_values-read, enum_value-missing,
  enum_values-missing,
}
use recipe_import_from_anyth.Recipe.Encoding.{
  optional_value-read, text_value, number_value, texts_value, author_value, nutrition_value,
  items_of, ingredient_value, instruction_value, recipe_value,
}
use recipe_import_from_anyth.Recipe.Ingredients.{
  normalize_ingredient_list, normalize_instruction_list,
}
use recipe_import_from_anyth.Recipe.Ingredients.WellFormed.{or?-OnSome}
use recipe_import_from_anyth.Recipe.Ingredients.Steps.{
  IsFiniteInstruction, instruction_list-missing, normalize_instruction_list-read,
}
use recipe_import_from_anyth.Recipe.Ingredients.Again.{
  IsFiniteIngredient, or?-none, ingredient_list-missing, normalize_ingredient_list-read,
}
use recipe_import_from_anyth.Recipe.Canonical.{
  normalize_nutrition, normalize_author, from_object, normalize_canonical_recipe,
}
use recipe_import_from_anyth.Recipe.Types.{CanonicalRecipe}
use recipe_import_from_anyth.Recipe.Canonical.Parts.{
  text_at-read, string_list-read, author-read, nutrition-read, author-missing, nutrition-missing,
}

difficulties-entries : are_entries difficulties ≡ true
unfolding are_entries trim is_space
difficulties-entries = refl

budgets-entries : are_entries budgets ≡ true
unfolding are_entries trim is_space
budgets-entries = refl

attributes-entries : are_entries recipe_attributes ≡ true
unfolding are_entries trim is_space
attributes-entries = refl

categories-entries : are_entries recipe_categories ≡ true
unfolding are_entries trim is_space
categories-entries = refl

module _ (F : Floats) (L : FloatLaws F) (upper : String → String)
    (capital : (s : String) → is_capital s ≡ true → upper s ≡ s) where
  open F use {Num}

  -- A recipe none of whose numbers has overflowed.
  pub record HasFiniteNumbers (r : CanonicalRecipe Num) : Type 0 where
    pub servings : OnSome (IsFinite F L) r.servings
    pub prep_time_min : OnSome (IsFinite F L) r.prep_time_min
    pub cook_time_min : OnSome (IsFinite F L) r.cook_time_min
    pub ingredients : OnSome (All (IsFiniteIngredient F L)) r.ingredients
    pub instructions : OnSome (All (IsFiniteInstruction F L)) r.instructions

  positive-read :
      (v : Value Num)
      → OnSome (IsFinite F L) (to_positive_integer F v)
      → to_positive_integer F (number_value (to_positive_integer F v)) ≡ to_positive_integer F v
  positive-read v f =
      optional_value-read (to_positive_integer F) num _ (positive_integer-missing F L)
        (positive_integer-read F L v f)

  minutes-read :
      (o : Option Num)
      → OnSome (λ x. to_non_negative_integer F (num x) ≡ some x) o
      → to_non_negative_integer F (number_value o) ≡ o
  minutes-read o h =
      optional_value-read (to_non_negative_integer F) num o (non_negative_integer-missing F L) h

  cook-read :
      (v w : Value Num)
      → OnSome (IsFinite F L) (to_non_negative_integer F v or? to_non_negative_integer F w)
      → (to_non_negative_integer F
            (number_value (to_non_negative_integer F v or? to_non_negative_integer F w))
          or? to_non_negative_integer F undefined)
        ≡ (to_non_negative_integer F v or? to_non_negative_integer F w)
  cook-read v w f =
      ap
        (λ t.
          to_non_negative_integer F
            (number_value (to_non_negative_integer F v or? to_non_negative_integer F w))
          or? t)
        (non_negative_integer-missing F L)
      ∙ or?-none _
      ∙ minutes-read _ (
          whole-read F L _
            (or?-OnSome (IsWhole F L) (to_non_negative_integer F v) (to_non_negative_integer F w)
              (non_negative_integer-IsWhole F L v) (non_negative_integer-IsWhole F L w))
            f)

  enum-read :
      (allowed : List String)
      → are_entries allowed ≡ true
      → (v : Value Num)
      → normalize_enum_value upper
          (text_value {N = Num} (normalize_enum_value upper v allowed))
          allowed
        ≡ normalize_enum_value upper v allowed
  enum-read allowed entries v =
      optional_value-read (λ w. normalize_enum_value upper w allowed) str _
        (enum_value-missing upper Num allowed)
        (OnSome-intro _ (λ d e.
          enum_value-read upper capital Num allowed entries d
            ((normalize_enum_value_iff upper v allowed d).0 e).2))

  enums-read :
      (allowed : List String)
      → are_entries allowed ≡ true
      → (v : Value Num)
      → normalize_enum_values upper
          (texts_value {N = Num} (normalize_enum_values upper v allowed))
          allowed
        ≡ normalize_enum_values upper v allowed
  enums-read allowed entries v =
      optional_value-read (λ w. normalize_enum_values upper w allowed) (λ xs. arr (text_items xs)) _
        (enum_values-missing upper Num allowed)
        (OnSome-intro _ (λ xs e.
          enum_values-read upper capital Num allowed entries xs
            (normalize_enum_values-IsSelection upper v allowed xs e)))

  from_object-read :
      (v : Value Num)
      → HasFiniteNumbers (from_object F upper v)
      → from_object F upper (recipe_value (from_object F upper v)) ≡ from_object F upper v
  unfolding from_object recipe_value get lookup
  from_object-read v f = λ j. record {
    name = text_at-read Num "name" v j;
    description = text_at-read Num "description" v j;
    servings = positive-read (get "servings" v) f.servings j;
    yield_unit_label = text_at-read Num "yieldUnitLabel" v j;
    prep_time_min =
        minutes-read _
          (whole-read F L _ (non_negative_integer-IsWhole F L (get "prepTimeMin" v))
            f.prep_time_min)
          j;
    cook_time_min = cook-read (get "cookTimeMin" v) (get "totalTimeMin" v) f.cook_time_min j;
    difficulty = enum-read difficulties difficulties-entries (get "difficulty" v) j;
    budget = enum-read budgets budgets-entries (get "budget" v) j;
    categories = enums-read recipe_categories categories-entries (get "categories" v) j;
    attributes = enums-read recipe_attributes attributes-entries (get "attributes" v) j;
    ingredients =
        optional_value-read (normalize_ingredient_list F) (λ xs. arr (items_of ingredient_value xs))
          _ (ingredient_list-missing F L)
          (normalize_ingredient_list-read F L (get "ingredients" v) f.ingredients) j;
    instructions =
        optional_value-read (normalize_instruction_list F)
          (λ xs. arr (items_of instruction_value xs)) _ (instruction_list-missing F L)
          (normalize_instruction_list-read F L (get "instructions" v) f.instructions) j;
    image =
        optional_value-read normalize_image (image_value Num) _ (image-missing Num)
          (image-read Num (get "image" v)) j;
    author =
        optional_value-read normalize_author author_value _ (author-missing Num)
          (author-read Num (get "author" v)) j;
    nutrition =
        optional_value-read normalize_nutrition nutrition_value _ (nutrition-missing Num)
          (nutrition-read Num (get "nutrition" v)) j;
    keywords = string_list-read Num (get "keywords" v) j;
    cuisine = text_at-read Num "cuisine" v j;
  }

  -- The recipe of any value, written as an object and normalized once more, is as it was, where
  -- `toUpperCase` leaves capitals as they are and the recipe's own numbers are all finite.
  pub normalize_canonical_recipe_idem :
      (v : Value Num)
      → HasFiniteNumbers (normalize_canonical_recipe F upper v)
      → normalize_canonical_recipe F upper (recipe_value (normalize_canonical_recipe F upper v))
        ≡ normalize_canonical_recipe F upper v
  unfolding normalize_canonical_recipe is_record recipe_value
  normalize_canonical_recipe_idem v f = from_object-read _ f

-- ===== src/Recipe/Canonical/Whole.antt =====
-- Whole numbers are all finite.
use recipe_import_from_anyth.Base.{
  ℕ, ◌≡◌, refl, true, String, List, [], ◌∷◌, All, OnSome, Option, none, some,
}
use recipe_import_from_anyth.Recipe.Lists.Enums.Again.{is_capital}
use recipe_import_from_anyth.Recipe.Numbers.Whole.{whole_numbers, whole_laws}
use recipe_import_from_anyth.Recipe.Numbers.Counts.{IsFinite}
use recipe_import_from_anyth.Recipe.Types.{
  CanonicalRecipe, CanonicalIngredient, CanonicalInstruction,
}
use recipe_import_from_anyth.Recipe.Ingredients.Again.{IsFiniteIngredient}
use recipe_import_from_anyth.Recipe.Ingredients.Steps.{IsFiniteInstruction}
use recipe_import_from_anyth.Recipe.Canonical.Again.{HasFiniteNumbers}

All-each {ℓ κ} : {A : Type ℓ} (P : A → Type κ) → ((x : A) → P x) → (xs : List A) → All P xs
All-each P f [] = tt
All-each P f (x ∷ xs) = (f x, All-each P f xs)

OnSome-each {ℓ κ} : {A : Type ℓ} (P : A → Type κ) → ((x : A) → P x) → (o : Option A) → OnSome P o
OnSome-each P f none = tt
OnSome-each P f (some x) = f x

abbrev IsFiniteWhole : ℕ → Type 0
IsFiniteWhole = IsFinite whole_numbers whole_laws

number-IsFinite : (n : ℕ) → IsFiniteWhole n
number-IsFinite n = refl

ingredient-IsFinite : (i : CanonicalIngredient ℕ) → IsFiniteIngredient whole_numbers whole_laws i
ingredient-IsFinite i = record {
  quantity = OnSome-each IsFiniteWhole number-IsFinite i.quantity;
  order = refl;
}

instruction-IsFinite : (i : CanonicalInstruction ℕ) → IsFiniteInstruction whole_numbers whole_laws i
instruction-IsFinite i = record {
  order = refl;
  duration_min = OnSome-each IsFiniteWhole number-IsFinite i.duration_min;
}

pub all-HasFiniteNumbers :
    (upper : String → String) (capital : (s : String) → is_capital s ≡ true → upper s ≡ s)
    (r : CanonicalRecipe ℕ)
    → HasFiniteNumbers whole_numbers whole_laws upper capital r
all-HasFiniteNumbers upper capital r = record {
  servings = OnSome-each IsFiniteWhole number-IsFinite r.servings;
  prep_time_min = OnSome-each IsFiniteWhole number-IsFinite r.prep_time_min;
  cook_time_min = OnSome-each IsFiniteWhole number-IsFinite r.cook_time_min;
  ingredients =
      OnSome-each (All (IsFiniteIngredient whole_numbers whole_laws))
        (All-each (IsFiniteIngredient whole_numbers whole_laws) ingredient-IsFinite) r.ingredients;
  instructions =
      OnSome-each (All (IsFiniteInstruction whole_numbers whole_laws))
        (All-each (IsFiniteInstruction whole_numbers whole_laws) instruction-IsFinite)
        r.instructions;
}

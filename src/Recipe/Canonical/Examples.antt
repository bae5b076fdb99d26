-- ===== src/Recipe/Canonical/Examples.antt =====
-- The theorems of the recipe's normalization at a value that a language model might answer.
use recipe_import_from_anyth.Base.{◌≡◌, refl, ℕ, String, List, [], ◌∷◌, trim, arith, eq_iff}
use recipe_import_from_anyth.Value.{Value, obj, field, end, str}
use recipe_import_from_anyth.Recipe.Numbers.Whole.{whole_numbers, whole_laws}
use recipe_import_from_anyth.Recipe.Canonical.Whole.{all-HasFiniteNumbers}
use recipe_import_from_anyth.Recipe.Encoding.{recipe_value}
use recipe_import_from_anyth.Recipe.Canonical.Again.{normalize_canonical_recipe_idem}
use recipe_import_from_anyth.Recipe.Texts.{IsTidy}
use recipe_import_from_anyth.Recipe.Canonical.{normalize_canonical_recipe}
use recipe_import_from_anyth.Recipe.Canonical.WellFormed.{
  IsWellFormed, normalize_canonical_recipe-IsWellFormed,
}

abbrev same : String → String
same s = s

abbrev soup : Value ℕ
soup = obj (field "name" (str " Soup ") (field "difficulty" (str "EASY") end))

normalize_canonical_recipe-IsWellFormed_example :
    IsWellFormed (normalize_canonical_recipe whole_numbers same soup)
normalize_canonical_recipe-IsWellFormed_example =
    normalize_canonical_recipe-IsWellFormed whole_numbers same soup

IsTidy-soup : IsTidy "soup"
unfolding trim
IsTidy-soup = record { trimmed = refl; inhabited = ground (arith, eq_iff "soup" "") }

IsTidy-warm : IsTidy "warm"
unfolding trim
IsTidy-warm = record { trimmed = refl; inhabited = ground (arith, eq_iff "warm" "") }

abbrev lines : List String
lines = "soup" ∷ "warm" ∷ []

normalize_canonical_recipe_idem_example :
    normalize_canonical_recipe whole_numbers same
      (recipe_value (normalize_canonical_recipe whole_numbers same soup))
    ≡ normalize_canonical_recipe whole_numbers same soup
normalize_canonical_recipe_idem_example =
    normalize_canonical_recipe_idem whole_numbers whole_laws same (λ s h. refl) soup
      (all-HasFiniteNumbers same (λ s h. refl) _)

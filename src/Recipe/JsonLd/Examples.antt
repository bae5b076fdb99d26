-- ===== src/Recipe/JsonLd/Examples.antt =====
-- The instructions of a small JSON-LD recipe.
use recipe_import_from_anyth.Base.{ℕ, ◌≡◌, refl, none, some, List, [], ◌∷◌, is_space, trim}
use recipe_import_from_anyth.Value.{Value, arr, nil, cons, str}
use recipe_import_from_anyth.Recipe.Texts.{to_non_empty_string}
use recipe_import_from_anyth.Recipe.JsonLd.{
  Instruction, how_to_step, step_of, normalize_step, normalize_instructions,
}

abbrev boil : List Instruction
boil = record { kind = how_to_step; text = some "Boil"; name = none; url = none } ∷ []

abbrev boil_value : Value ℕ
boil_value = arr (cons (str " Boil ") (cons (str " ") nil))

boil_read : normalize_instructions boil_value ≡ some boil
unfolding normalize_instructions normalize_step step_of to_non_empty_string trim is_space
boil_read = refl

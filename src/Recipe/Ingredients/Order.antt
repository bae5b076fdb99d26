-- ===== src/Recipe/Ingredients/Order.antt =====
-- Lists of ingredients and instructions that are given as plain texts.
use recipe_import_from_anyth.Base.{
  ℕ, suc, ◌≡◌, refl, String, none, some, List, [], ◌∷◌, All, collect_from,
}
use recipe_import_from_anyth.Value.{arr, items}
use recipe_import_from_anyth.Recipe.Numbers.{Floats}
use recipe_import_from_anyth.Recipe.Texts.{IsTidy, to_non_empty_string-tidy}
use recipe_import_from_anyth.Recipe.Lists.{text_items}
use recipe_import_from_anyth.Recipe.Types.{CanonicalIngredient, CanonicalInstruction}
use recipe_import_from_anyth.Recipe.Ingredients.{
  text_ingredient, normalize_ingredient, normalize_ingredient_list, text_instruction,
  normalize_instruction, normalize_instruction_list,
}

module _ (F : Floats) where
  open F use {Num, of_index}

  -- The ingredients that some lines stand for, numbered from an index on.
  abbrev plain_ingredients : ℕ → List String → List (CanonicalIngredient Num)
  plain_ingredients index [] = []
  plain_ingredients index (line ∷ lines) =
      record {
        name = line;
        quantity = none;
        unit = none;
        note = none;
        optional = none;
        order = of_index index;
        raw = some line;
      }
      ∷ plain_ingredients (suc index) lines

  abbrev plain_instructions : ℕ → List String → List (CanonicalInstruction Num)
  plain_instructions index [] = []
  plain_instructions index (line ∷ lines) =
      record { text = line; order = of_index index; duration_min = none }
      ∷ plain_instructions (suc index) lines

  collect-plain_ingredients :
      (index : ℕ) (lines : List String)
      → All IsTidy lines
      → collect_from (normalize_ingredient F) index (items (text_items lines))
        ≡ plain_ingredients index lines
  unfolding normalize_ingredient text_ingredient
  collect-plain_ingredients index [] h = refl
  collect-plain_ingredients index (line ∷ lines) (tidy, h) =
      rw (to_non_empty_string-tidy Num line tidy, collect-plain_ingredients (suc index) lines h)

  collect-plain_instructions :
      (index : ℕ) (lines : List String)
      → All IsTidy lines
      → collect_from (normalize_instruction F) index (items (text_items lines))
        ≡ plain_instructions index lines
  unfolding normalize_instruction text_instruction
  collect-plain_instructions index [] h = refl
  collect-plain_instructions index (line ∷ lines) (tidy, h) =
      rw (to_non_empty_string-tidy Num line tidy, collect-plain_instructions (suc index) lines h)

  -- An array of trimmed texts that are not empty is read, as ingredients and as instructions, item
  -- by item and in its order; the orders are the positions counted from 0.
  plain_lists :
      (line : String) (lines : List String)
      → All IsTidy (line ∷ lines)
      → (normalize_ingredient_list F (arr (text_items (line ∷ lines)))
          ≡ some (plain_ingredients 0 (line ∷ lines)))
        × (normalize_instruction_list F (arr (text_items (line ∷ lines)))
            ≡ some (plain_instructions 0 (line ∷ lines)))
  unfolding normalize_ingredient_list normalize_instruction_list
  plain_lists line lines h = (
    rw (collect-plain_ingredients 0 (line ∷ lines) h),
    rw (collect-plain_instructions 0 (line ∷ lines) h),
  )

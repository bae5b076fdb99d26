-- ===== src/Recipe/Encoding.antt =====
-- The objects of JavaScript that the records of Recipe/Types stand for. A property that an object
-- does not have is written as `undefined`, which reads alike.
use recipe_import_from_anyth.Base.{
  ℕ, suc, ◌≡◌, refl, ap, All, OnSome, collect_from, String, Option, none, some, List, [], ◌∷◌,
}
use recipe_import_from_anyth.Value.{
  Value, undefined, bool, num, str, arr, obj, items, Items, nil, cons, field, end,
}
use recipe_import_from_anyth.Recipe.Lists.{text_items}
use recipe_import_from_anyth.Recipe.Lists.Again.{image_value}
use recipe_import_from_anyth.Recipe.Types.{
  CanonicalIngredient, CanonicalInstruction, CanonicalNutrition, AuthorType, person, organization,
  CanonicalAuthor, CanonicalRecipe,
}

module _ {N : Type 0} where
  abbrev pub optional_value : {A : Type 0} → (A → Value N) → Option A → Value N
  optional_value write none = undefined
  optional_value write (some a) = write a

  abbrev pub text_value : Option String → Value N
  text_value o = optional_value str o

  abbrev pub number_value : Option N → Value N
  number_value o = optional_value num o

  abbrev pub texts_value : Option (List String) → Value N
  texts_value o = optional_value (λ xs. arr (text_items xs)) o

  abbrev pub type_value : AuthorType → Value N
  type_value person = str "Person"
  type_value organization = str "Organization"

  abbrev pub author_value : CanonicalAuthor → Value N
  author_value a =
      obj (field "name" (text_value a.name) (field "type" (optional_value type_value a.kind) end))

  abbrev pub nutrition_value : CanonicalNutrition → Value N
  nutrition_value n = obj (
      field "calories" (text_value n.calories) (
        field "proteinContent" (text_value n.protein_content) (
          field "fatContent" (text_value n.fat_content) (
            field "carbohydrateContent" (text_value n.carbohydrate_content) (
              field "fiberContent" (text_value n.fiber_content)
                (field "sodiumContent" (text_value n.sodium_content) end))))))

  abbrev pub ingredient_value : CanonicalIngredient N → Value N
  ingredient_value i = obj (
      field "name" (str i.name) (
        field "quantity" (number_value i.quantity) (
          field "unit" (text_value i.unit) (
            field "note" (text_value i.note) (
              field "optional" (optional_value bool i.optional)
                (field "order" (num i.order) (field "raw" (text_value i.raw) end)))))))

  abbrev pub instruction_value : CanonicalInstruction N → Value N
  instruction_value i = obj (
      field "text" (str i.text)
        (field "order" (num i.order) (field "durationMin" (number_value i.duration_min) end)))

  abbrev pub items_of : {A : Type 0} → (A → Value N) → List A → Items N
  items_of write [] = nil
  items_of write (x ∷ xs) = cons (write x) (items_of write xs)

  abbrev pub list_value : {A : Type 0} → (A → Value N) → Option (List A) → Value N
  list_value write o = optional_value (λ xs. arr (items_of write xs)) o

  unfoldable pub recipe_value : CanonicalRecipe N → Value N
  recipe_value r = obj (
      field "name" (text_value r.name) (
        field "description" (text_value r.description) (
          field "servings" (number_value r.servings) (
            field "yieldUnitLabel" (text_value r.yield_unit_label) (
              field "prepTimeMin" (number_value r.prep_time_min) (
                field "cookTimeMin" (number_value r.cook_time_min) (
                  field "difficulty" (text_value r.difficulty) (
                    field "budget" (text_value r.budget) (
                      field "categories" (texts_value r.categories) (
                        field "attributes" (texts_value r.attributes) (
                          field "ingredients" (list_value ingredient_value r.ingredients) (
                            field "instructions" (list_value instruction_value r.instructions) (
                              field "image" (optional_value (image_value N) r.image) (
                                field "author" (optional_value author_value r.author) (
                                  field "nutrition" (optional_value nutrition_value r.nutrition) (
                                    field "keywords" (texts_value r.keywords)
                                      (field "cuisine" (text_value r.cuisine) end)))))))))))))))))

  -- A list whose items are read back, one by one, is read back.
  pub collect_from-items_of :
      {A : Type 0} (read : ℕ → Value N → Option A) (write : A → Value N) (i : ℕ) (xs : List A)
      → All (λ x. (index : ℕ) → read index (write x) ≡ some x) xs
      → collect_from read i (items (items_of write xs)) ≡ xs
  collect_from-items_of read write i [] h = refl
  collect_from-items_of read write i (x ∷ xs) (here, h) =
      rw (here i) (ap (λ ys. x ∷ ys) (collect_from-items_of read write (suc i) xs h))

  -- A reader that has nothing for `undefined`, and reads what is written, reads an optional value.
  pub optional_value-read :
      {A : Type 0} (read : Value N → Option A) (write : A → Value N) (o : Option A)
      → read undefined ≡ none
      → OnSome (λ a. read (write a) ≡ some a) o
      → read (optional_value write o) ≡ o
  optional_value-read read write none missing h = missing
  optional_value-read read write (some a) missing h = h

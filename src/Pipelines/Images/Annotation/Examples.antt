-- ===== src/Pipelines/Images/Annotation/Examples.antt =====
-- An annotation with a list of types and the instructions under their name in JSON-LD.
use recipe_import_from_anyth.Base.{ℕ, ◌≡◌, refl, String, Option, some}
use recipe_import_from_anyth.Value.{
  Value, Fields, field, end, str, arr, cons, nil, obj, lookup, is_object,
}
use recipe_import_from_anyth.Pipelines.Images.Annotation.{
  parse_image_annotation, read_annotation, annotation_of, expected, parse_image_annotation-lookup,
}

abbrev given : Fields ℕ
given =
    field "@type" (arr (cons (str "Recipe") nil))
      (field "recipeInstructions" (arr (cons (str "Stir") nil)) end)

abbrev parse : String → Option (Value ℕ)
parse text = some (obj given)

parsed : parse_image_annotation parse (some "{}") ≡ some (annotation_of (obj given))
unfolding parse_image_annotation read_annotation is_object
parsed = refl

parse_image_annotation-lookup_example :
    lookup "instructions" (annotation_of (obj given)) ≡ expected given "instructions"
parse_image_annotation-lookup_example =
    parse_image_annotation-lookup parse "{}" given (annotation_of (obj given)) refl refl parsed
      "instructions"

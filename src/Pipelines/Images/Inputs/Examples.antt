-- ===== src/Pipelines/Images/Inputs/Examples.antt =====
-- A request with one image.
use recipe_import_from_anyth.Base.{ℕ, ◌≡◌, refl, some, [], ◌∷◌, trim}
use recipe_import_from_anyth.Value.{Value, str, obj, field, end, get, lookup}
use recipe_import_from_anyth.Pipelines.Images.Inputs.{
  parse_image_refs, optional_image_ref, optional_image_refs, filled_ref, refined,
  normalize_image_refs,
}

abbrev one_ref : Value ℕ
one_ref = obj (field "imageRef" (str "tmp/a.bin") end)

parsed : parse_image_refs one_ref ≡ some ("tmp/a.bin" ∷ [])
unfolding get lookup trim parse_image_refs optional_image_ref optional_image_refs filled_ref refined
    normalize_image_refs
parsed = refl

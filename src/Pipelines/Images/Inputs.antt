-- ===== src/Pipelines/Images/Inputs.antt =====
-- packages/pipelines/images/src/meta.ts: the references of a request for images.

mod Examples
use recipe_import_from_anyth.Base.{
  ℕ, ◌+◌, ◌≤◌, ◌≡◌, refl, Bool, true, false, ◌&&◌, String, Option, none, some, ◌or◌, List, [], ◌∷◌,
  ◌++◌, length, length-append, is_empty, trim, leb, if◌then◌else◌, unique, unique-IsUnique,
  IsUnique, arith, ◌>>=◌, not, ◌==◌, filter_by, Bool-cases, inl, inr, subst,
}
use mathlib.Core.Option.{some-injective}
use recipe_import_from_anyth.Domain.{StepDefinition, StepCategory}
use recipe_import_from_anyth.Registry.{PipelineMeta}
use recipe_import_from_anyth.Value.{
  Value, undefined, str, arr, obj, Items, nil, cons, field, end, items, get,
}

-- `z.string().trim().min(1)`
pub filled_ref : String → Option String
filled_ref s = let t = trim s in if is_empty t then none else some t

between_one_and_four : List String → Option (Option (List String))
between_one_and_four refs =
    if leb 1 (length refs) && leb (length refs) 4 then some (some refs) else none

module _ {N : Type 0} where
  pub image_ref : Value N → Option String
  image_ref (str s) = filled_ref s
  image_ref _ = none

  pub optional_image_ref : Value N → Option (Option String)
  optional_image_ref undefined = some none
  optional_image_ref (str s) = do ref ← filled_ref s; some (some ref)
  optional_image_ref _ = none

  pub all_refs : List (Value N) → Option (List String)
  all_refs [] = some []
  all_refs (x ∷ xs) = do ref ← image_ref x; refs ← all_refs xs; some (ref ∷ refs)

  pub optional_image_refs : Value N → Option (Option (List String))
  optional_image_refs undefined = some none
  optional_image_refs (arr xs) = do refs ← all_refs (items xs); between_one_and_four refs
  optional_image_refs _ = none

-- `[...(value.imageRefs ?? []), ...(value.imageRef ? [value.imageRef] : [])]` without repetitions
abbrev single : Option String → List String
single none = []
single (some ref) = if is_empty ref then [] else ref ∷ []

pub normalize_image_refs : Option (List String) → Option String → List String
normalize_image_refs refs ref = unique ((refs or []) ++ single ref)

-- `superRefine`, and then the transformation
pub refined : Option String → Option (List String) → Option (List String)
refined none none = none
refined none (some []) = none
refined ref refs = some (normalize_image_refs refs ref)

pub parse_image_refs : {N : Type 0} → Value N → Option (List String)
parse_image_refs (obj fs) = do
  ref ← optional_image_ref (get "imageRef" (obj fs))
  refs ← optional_image_refs (get "imageRefs" (obj fs))
  refined ref refs
parse_image_refs _ = none

module _ {N : Type 0} where
  refs_items : List String → Items N
  refs_items [] = nil
  refs_items (ref ∷ refs) = cons (str ref) (refs_items refs)

  abbrev refs_object : Option (List String) → Option (Value N)
  refs_object none = none
  refs_object (some refs) = some (obj (field "imageRefs" (arr (refs_items refs)) end))

  -- `imagesInputSchema.safeParse`
  pub images_input_schema : Value N → Option (Value N)
  images_input_schema value = refs_object (parse_image_refs value)

  abbrev pub images_meta : PipelineMeta N
  images_meta = record {
    pipeline_id = "images";
    title = "Image Import";
    steps =
        record { id = "collecting"; label = "Loading images"; category = StepCategory.collecting }
        ∷ record {
          id = "extracting";
          label = "Extracting text";
          category = StepCategory.extracting;
        }
        ∷ [];
    input_schema = images_input_schema;
  }

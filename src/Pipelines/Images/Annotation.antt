-- ===== src/Pipelines/Images/Annotation.antt =====
-- packages/pipelines/images/src/image-schema.ts: the annotation of an image, which OCR gives as the
-- text of a recipe's JSON-LD. `JSON.parse` is an argument, with no value where it throws.
use mathlib.Core.Option.{some-injective}
mod Examples
use recipe_import_from_anyth.Base.{
  ℕ, suc, ◌+◌, ◌≡◌, refl, ap, ◌∙◌, Bool, true, false, String, ◌==◌, Option, none, some, is_empty,
  if◌then◌else◌, decimal, Bool-cases, inl, inr, arith, subst, eq_iff, sym,
}
use recipe_import_from_anyth.Value.{
  Value, undefined, null, bool, num, str, arr, obj, Items, nil, cons, Fields, end, field, get,
  lookup, is_object, set_field, lookup-set_field, lookup-set_other,
}

type-instructions : ("@type" == "instructions") ≡ false
type-instructions = refl

module _ {N : Type 0} where
  -- the first text of a list of types
  unfoldable pub normalized_type : Value N → Value N
  normalized_type (arr (cons (str s) types)) = str s
  normalized_type v = v

  -- `instructions !== undefined ? instructions : recipeInstructions`
  unfoldable pub normalized_instructions : Value N → Value N → Value N
  normalized_instructions undefined recipe_instructions = recipe_instructions
  normalized_instructions instructions recipe_instructions = instructions

  -- the properties of an array from an index on
  index_fields : ℕ → Items N → Fields N
  index_fields i nil = end
  index_fields i (cons x xs) = field (decimal i) x (index_fields (suc i) xs)

  -- `{ ...parsed }`
  fields_of : Value N → Fields N
  unfolding index_fields
  fields_of (obj fs) = fs
  fields_of (arr xs) = index_fields 0 xs
  fields_of _ = end

  -- `...(value !== undefined ? { [key]: value } : {})`
  put : String → Value N → Fields N → Fields N
  put key undefined fs = fs
  put key value fs = set_field key value fs

  annotation_of : Value N → Fields N
  unfolding fields_of put
  annotation_of v =
      put "instructions"
        (normalized_instructions (get "instructions" v) (get "recipeInstructions" v))
        (put "@type" (normalized_type (get "@type" v)) (fields_of v))

  read_annotation : Option (Value N) → Option (Fields N)
  unfolding annotation_of
  read_annotation none = none
  read_annotation (some v) = if is_object v then some (annotation_of v) else none

  pub parse_image_annotation : (String → Option (Value N)) → Option String → Option (Fields N)
  unfolding read_annotation
  parse_image_annotation parse none = none
  parse_image_annotation parse (some text) =
      let read = read_annotation (parse text) in if is_empty text then none else read

  lookup-put :
      (key : String) (value : Value N) (fs : Fields N)
      → (value ≡ undefined → lookup key fs ≡ undefined)
      → lookup key (put key value fs) ≡ value
  unfolding put
  lookup-put key undefined fs h = h refl
  lookup-put key null fs h = lookup-set_field key null fs
  lookup-put key (bool b) fs h = lookup-set_field key (bool b) fs
  lookup-put key (num n) fs h = lookup-set_field key (num n) fs
  lookup-put key (str s) fs h = lookup-set_field key (str s) fs
  lookup-put key (arr xs) fs h = lookup-set_field key (arr xs) fs
  lookup-put key (obj gs) fs h = lookup-set_field key (obj gs) fs

  lookup-put_other :
      (j key : String) (value : Value N) (fs : Fields N)
      → (key == j) ≡ false
      → lookup j (put key value fs) ≡ lookup j fs
  unfolding put
  lookup-put_other j key undefined fs h = refl
  lookup-put_other j key null fs h = lookup-set_other j key null fs h
  lookup-put_other j key (bool b) fs h = lookup-set_other j key (bool b) fs h
  lookup-put_other j key (num n) fs h = lookup-set_other j key (num n) fs h
  lookup-put_other j key (str s) fs h = lookup-set_other j key (str s) fs h
  lookup-put_other j key (arr xs) fs h = lookup-set_other j key (arr xs) fs h
  lookup-put_other j key (obj gs) fs h = lookup-set_other j key (obj gs) fs h

  normalized_type-undefined : (v : Value N) → normalized_type v ≡ undefined → v ≡ undefined
  unfolding normalized_type
  normalized_type-undefined undefined e = refl
  normalized_type-undefined null e = e
  normalized_type-undefined (bool b) e = e
  normalized_type-undefined (num n) e = e
  normalized_type-undefined (str s) e = e
  normalized_type-undefined (obj gs) e = e
  normalized_type-undefined (arr nil) e = e
  normalized_type-undefined (arr (cons undefined xs)) e = e
  normalized_type-undefined (arr (cons null xs)) e = e
  normalized_type-undefined (arr (cons (bool b) xs)) e = e
  normalized_type-undefined (arr (cons (num n) xs)) e = e
  normalized_type-undefined (arr (cons (str s) xs)) e = cc
  normalized_type-undefined (arr (cons (arr ys) xs)) e = e
  normalized_type-undefined (arr (cons (obj gs) xs)) e = e

  normalized_instructions-undefined :
      (v w : Value N) → normalized_instructions v w ≡ undefined → v ≡ undefined
  unfolding normalized_instructions
  normalized_instructions-undefined undefined w e = refl
  normalized_instructions-undefined null w e = e
  normalized_instructions-undefined (bool b) w e = e
  normalized_instructions-undefined (num n) w e = e
  normalized_instructions-undefined (str s) w e = e
  normalized_instructions-undefined (arr xs) w e = e
  normalized_instructions-undefined (obj gs) w e = e

  -- the value of the annotation under a key, from the object's own properties
  abbrev pub expected : Fields N → String → Value N
  expected fs key =
      if "@type" == key
      then normalized_type (lookup "@type" fs)
      else (if "instructions" == key
          then normalized_instructions (lookup "instructions" fs) (lookup "recipeInstructions" fs)
          else lookup key fs)

  annotation_of-lookup :
      (fs : Fields N) (key : String) → lookup key (annotation_of (obj fs)) ≡ expected fs key
  unfolding annotation_of fields_of get
  annotation_of-lookup fs key =
      let typed = put "@type" (normalized_type (lookup "@type" fs)) fs in
      let steps =
        normalized_instructions (lookup "instructions" fs) (lookup "recipeInstructions" fs) in
      elim (Bool-cases ("@type" == key)) [
        | inl same ↦ rw same (
            subst
              (λ k. lookup k (put "instructions" steps typed) ≡ normalized_type (lookup "@type" fs))
              ((eq_iff "@type" key).0 same)
              (lookup-put_other "@type" "instructions" steps typed refl
                ∙ lookup-put "@type" _ fs (normalized_type-undefined (lookup "@type" fs))))
        | inr untyped ↦ elim (Bool-cases ("instructions" == key)) [
          | inl same ↦
              rw (untyped, same)
                (subst (λ k. lookup k (put "instructions" steps typed) ≡ steps)
                  ((eq_iff "instructions" key).0 same)
                  (lookup-put "instructions" steps typed (λ e.
                    lookup-put_other "instructions" "@type" _ fs type-instructions
                    ∙ normalized_instructions-undefined (lookup "instructions" fs) _ e)))
          | inr other ↦
              rw (untyped, other)
                (lookup-put_other key "instructions" steps typed other
                  ∙ lookup-put_other key "@type" _ fs untyped)
        ]
      ]

  -- The annotation of a text that is not empty and is parsed as an object has the first text of the
  -- object's types under "@type", its instructions, or else its recipe instructions, under
  -- "instructions", and under each other key what the object has there.
  pub parse_image_annotation-lookup :
      (parse : String → Option (Value N)) (text : String) (fs gs : Fields N)
      → is_empty text ≡ false
      → parse text ≡ some (obj fs)
      → parse_image_annotation parse (some text) ≡ some gs
      → (key : String) → lookup key gs ≡ expected fs key
  unfolding parse_image_annotation read_annotation is_object
  parse_image_annotation-lookup parse text fs gs filled parsed e key =
      let made : some (annotation_of (obj fs)) ≡ some gs = rw (parsed, filled) at e in
      ap (lookup key) (sym (some-injective _ _ made)) ∙ annotation_of-lookup fs key

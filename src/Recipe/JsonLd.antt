-- ===== src/Recipe/JsonLd.antt =====
-- Normalizers of recipe-jsonld.normalizers.ts that only the JSON-LD recipe uses.
pub mod Lines
pub mod Durations
pub mod Yield
pub mod Schema
mod Examples
use recipe_import_from_anyth.Base.{
  ◌≡◌, ◌≢◌, ◌⊎◌, inl, inr, refl, Bool, true, false, ◌||◌, String, ◌==◌, Option, none, some, List,
  [], ◌∷◌, collect, nonempty_list, nonempty_list-All, is_some, if◌then◌else◌, OnSome, OnSome-intro,
  All, All-collect, arith, Option-cases, subst,
}
use mathlib.Core.Option
use mathlib.Core.Option.{some-injective}
use recipe_import_from_anyth.Value.{
  Value, undefined, null, bool, num, str, arr, obj, Fields, Items, nil, cons, items, get, is_record,
}
use recipe_import_from_anyth.Recipe.Numbers.{Floats}
use recipe_import_from_anyth.Recipe.Texts.{
  to_non_empty_string, to_non_empty_string-IsTidy, IsTidy, text_at, text_at-IsTidy,
}
use recipe_import_from_anyth.Recipe.Types.{
  AuthorType, person, organization, CanonicalAuthor, CanonicalNutrition,
}
use recipe_import_from_anyth.Recipe.Canonical.{if_any, author_of, author_type}

pub data StepType : Type 0 where
  how_to_step how_to_section : StepType

pub record Instruction : Type 0 where
  pub kind : StepType
  pub text : Option String
  pub name : Option String
  pub url : Option String

pub record AggregateRating (N : Type 0) : Type 0 where
  pub rating_value : Option N
  pub review_count : Option N

-- `string | number`
pub data RecipeYield (N : Type 0) : Type 0 where
  yield_number : N → RecipeYield N
  yield_text : String → RecipeYield N

step_of : Option String → Option Instruction
step_of none = none
step_of (some text) =
    some (record { kind = how_to_step; text = some text; name = none; url = none })

-- What has neither a text nor a name is left out.
named_step : StepType → Option String → Option String → Option String → Option Instruction
named_step kind none none url = none
named_step kind text name url = some (record { kind = kind; text = text; name = name; url = url })

module _ {N : Type 0} where
  abbrev is_text : String → Value N → Bool
  is_text s (str t) = t == s
  is_text s _ = false

  abbrev step_type : Value N → StepType
  step_type value = if is_text "HowToSection" value then how_to_section else how_to_step

  normalize_step : Value N → Option Instruction
  normalize_step (str s) = step_of (to_non_empty_string {N = N} (str s))
  normalize_step (obj fs) =
      named_step (step_type (get "@type" (obj fs))) (text_at "text" (obj fs))
        (text_at "name" (obj fs)) (text_at "url" (obj fs))
  normalize_step _ = none

  pub normalize_instructions : Value N → Option (List Instruction)
  normalize_instructions (arr xs) = nonempty_list (collect normalize_step (items xs))
  normalize_instructions _ = none

  pub normalize_nutrition : Value N → Option CanonicalNutrition
  normalize_nutrition value =
      if is_record value
      then if_any (record {
        calories = text_at "calories" value;
        protein_content = text_at "proteinContent" value;
        fat_content = text_at "fatContent" value;
        carbohydrate_content = text_at "carbohydrateContent" value;
        fiber_content = text_at "fiberContent" value;
        sodium_content = text_at "sodiumContent" value;
      })
      else none

  pub normalize_author : Value N → Option CanonicalAuthor
  normalize_author value = elim (to_non_empty_string value) [
    | some name ↦ some (record { name = some name; kind = none })
    | none ↦
        if is_record value
        then author_of (text_at "name" value) (author_type (get "@type" value))
        else none
  ]

  has_recipe : List (Value N) → Bool
  has_recipe [] = false
  has_recipe (x ∷ xs) = is_text "Recipe" x || has_recipe xs

  -- whether the type is "Recipe"
  pub normalize_recipe_type : Value N → Bool
  normalize_recipe_type (arr xs) = has_recipe (items xs)
  normalize_recipe_type value = is_text "Recipe" value

module _ (F : Floats) where
  open F use {Num, is_finite}

  abbrev finite_at : String → Value Num → Option Num
  finite_at key value = elim (get key value) [
    | num x ↦ if is_finite x then some x else none
    | _ ↦ none
  ]

  rating_of : Option Num → Option Num → Option (AggregateRating Num)
  rating_of none none = none
  rating_of rating reviews = some (record { rating_value = rating; review_count = reviews })

  pub normalize_aggregate_rating : Value Num → Option (AggregateRating Num)
  normalize_aggregate_rating value =
      if is_record value
      then rating_of (finite_at "ratingValue" value) (finite_at "reviewCount" value)
      else none

  pub normalize_recipe_yield : Value Num → Option (RecipeYield Num)
  normalize_recipe_yield (num x) = if is_finite x then some (yield_number x) else none
  normalize_recipe_yield value = Option.map yield_text (to_non_empty_string value)

-- A step with a text or a name, and each of its texts trimmed and not empty.
pub record IsStep (i : Instruction) : Type 0 where
  pub text : OnSome IsTidy i.text
  pub name : OnSome IsTidy i.name
  pub url : OnSome IsTidy i.url
  pub told : (is_some i.text || is_some i.name) ≡ true

named_step-IsStep :
    (kind : StepType) (text name url : Option String) (i : Instruction)
    → OnSome IsTidy text
    → OnSome IsTidy name
    → OnSome IsTidy url
    → named_step kind text name url ≡ some i
    → IsStep i
unfolding named_step
named_step-IsStep kind none none url i t n u e = cc
named_step-IsStep kind (some x) name url i t n u e =
    subst IsStep (some-injective _ _ e) (record { text = t; name = n; url = u; told = refl })
named_step-IsStep kind none (some x) url i t n u e =
    subst IsStep (some-injective _ _ e) (record { text = t; name = n; url = u; told = refl })

step_of-IsStep :
    (text : Option String) (i : Instruction) → OnSome IsTidy text → step_of text ≡ some i → IsStep i
unfolding step_of
step_of-IsStep none i t e = cc
step_of-IsStep (some x) i t e =
    subst IsStep (some-injective _ _ e) (record { text = t; name = tt; url = tt; told = refl })

module _ {N : Type 0} where
  normalize_step-IsStep : (v : Value N) (i : Instruction) → normalize_step v ≡ some i → IsStep i
  unfolding normalize_step
  normalize_step-IsStep (str s) i e =
      step_of-IsStep _ i (OnSome-intro _ (to_non_empty_string-IsTidy {N = N} (str s))) e
  normalize_step-IsStep (obj fs) i e =
      named_step-IsStep _ _ _ _ i (text_at-IsTidy "text" (obj fs)) (text_at-IsTidy "name" (obj fs))
        (text_at-IsTidy "url" (obj fs)) e
  normalize_step-IsStep _ i e = cc

  -- The instructions of a JSON-LD recipe that are read are not an empty list; each has a text or a
  -- name, and its texts are trimmed and not empty.
  pub normalize_instructions-IsStep :
      (v : Value N) (steps : List Instruction)
      → normalize_instructions v ≡ some steps
      → All IsStep steps × (steps ≢ [])
  unfolding normalize_instructions
  normalize_instructions-IsStep (arr xs) steps e =
      nonempty_list-All IsStep (collect normalize_step (items xs)) steps
        (All-collect IsStep normalize_step normalize_step-IsStep (items xs)) e
  normalize_instructions-IsStep _ steps e = cc

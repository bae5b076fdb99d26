-- ===== src/Worker/Scoring.antt =====
-- `calculateRecipeConfidence` of src/worker/processor.ts and
-- packages/domain/src/value-objects/confidence.ts, in JavaScript's numbers: a literal is the number
-- of its text.
use recipe_import_from_anyth.Base.{
  Bool, true, false, not, ◌||◌, Option, none, some, String, List, [], ◌∷◌, is_some, is_empty, trim,
  if◌then◌else◌,
}
use recipe_import_from_anyth.Effects.{Outcome, ok, thrown, error}
use recipe_import_from_anyth.Recipe.Numbers.{Floats}
use recipe_import_from_anyth.Recipe.Lists.{Image, one, many}
use recipe_import_from_anyth.Recipe.Types.{CanonicalRecipe, CanonicalAuthor}

pub data ConfidenceLevel : Type 0 where
  high medium low : ConfidenceLevel

pub record Confidence (N : Type 0) : Type 0 where
  pub value : N
  pub level : ConfidenceLevel

module _ (F : Floats) where
  unfoldable pub level_of : F.Num → ConfidenceLevel
  level_of value =
      if F.is_at_least value (F.to_number "0.8")
      then high
      else if F.is_at_least value (F.to_number "0.5")
      then medium
      else low

  -- `new Confidence(value)`
  unfoldable pub new_confidence : F.Num → Outcome (Confidence F.Num)
  new_confidence value =
      if F.is_negative value || F.is_above value (F.to_number "1")
      then thrown (error "Confidence must be between 0 and 1")
      else ok (record { value = value; level = level_of value })

abbrev has_ink : Option String → Bool
has_ink none = false
has_ink (some s) = not (is_empty (trim s))

abbrev has_items {ℓ} : {A : Type ℓ} → Option (List A) → Bool
has_items none = false
has_items (some []) = false
has_items (some (x ∷ xs)) = true

-- a text that is given and not empty
abbrev is_given : Option String → Bool
is_given none = false
is_given (some s) = not (is_empty s)

abbrev has_image : Option Image → Bool
has_image none = false
has_image (some (one s)) = not (is_empty s)
has_image (some (many xs)) = true

abbrev has_name : Option CanonicalAuthor → Bool
has_name none = false
has_name (some author) = is_given author.name

module _ (F : Floats) where
  -- a number that is given and is not 0
  abbrev is_truthy : Option F.Num → Bool
  is_truthy none = false
  is_truthy (some x) = not (F.is_zero x)

  -- `if (b) score += points`, with the points as the number of a text
  abbrev scored : Bool → String → F.Num → F.Num
  scored true points score = F.add score (F.to_number points)
  scored false points score = score

  pub recipe_score : CanonicalRecipe F.Num → F.Num
  recipe_score recipe =
      let base = F.to_number "0.1" in
      let named = scored (has_ink recipe.name) "0.3" base in
      let listed = scored (has_items recipe.ingredients) "0.12" named in
      let told = scored (has_items recipe.instructions) "0.08" listed in
      let described = scored (has_ink recipe.description) "0.05" told in
      let has_time = is_truthy recipe.prep_time_min || is_truthy recipe.cook_time_min in
      let timed = scored has_time "0.1" described in
      let served = scored (is_truthy recipe.servings) "0.05" timed in
      let signed = scored (has_name recipe.author) "0.05" served in
      let measured = scored (is_some recipe.nutrition) "0.04" signed in
      let pictured = scored (has_image recipe.image) "0.03" measured in
      let tagged = scored (has_items recipe.keywords) "0.02" pictured in
      let placed = scored (is_given recipe.cuisine) "0.02" tagged in
      let grouped = scored (has_items recipe.categories) "0.02" placed in
      scored (has_items recipe.attributes) "0.02" grouped

  unfoldable pub calculate_recipe_confidence :
      CanonicalRecipe F.Num → F.Num → Outcome (Confidence F.Num)
  calculate_recipe_confidence recipe extraction =
      let score = F.maximum (F.to_number "0") (F.minimum (recipe_score recipe) (F.to_number "1")) in
      new_confidence F
        (F.add (F.multiply score (F.to_number "0.7")) (F.multiply extraction (F.to_number "0.3")))

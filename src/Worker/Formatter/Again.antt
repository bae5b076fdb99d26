-- ===== src/Worker/Formatter/Again.antt =====
-- What the formatter gives is normalized: where its numbers are finite, normalizing it again
-- changes nothing.
use recipe_import_from_anyth.Base.{ℕ, zero, suc, ◌≡◌, ◌-◌, String, Option, none, some, true}
use recipe_import_from_anyth.Value.{Value}
use recipe_import_from_anyth.Effects.{Outcome, ok, thrown, Failure}
use recipe_import_from_anyth.Recipe.Numbers.{Floats}
use recipe_import_from_anyth.Recipe.Numbers.Counts.{FloatLaws}
use recipe_import_from_anyth.Recipe.Lists.Enums.Again.{is_capital}
use recipe_import_from_anyth.Recipe.Types.{CanonicalRecipe}
use recipe_import_from_anyth.Recipe.Encoding.{recipe_value}
use recipe_import_from_anyth.Recipe.Canonical.{normalize_canonical_recipe}
use recipe_import_from_anyth.Recipe.Canonical.Again.{
  HasFiniteNumbers, normalize_canonical_recipe_idem,
}
use recipe_import_from_anyth.Worker.Formatter.{
  parsed_recipe, parse_and_validate, attempt_format, or_catch, format_from, format, max_retries,
}

module _ (F : Floats) (L : FloatLaws F) (upper : String → String)
    (capital : (s : String) → is_capital s ≡ true → upper s ≡ s)
    (json : String → Option (Value F.Num)) where
  -- A recipe, if there is one, that is normalized where its numbers are finite.
  abbrev pub IsNormal : Outcome (CanonicalRecipe F.Num) → Type 0
  IsNormal (ok recipe) =
      HasFiniteNumbers F L upper capital recipe
      → normalize_canonical_recipe F upper (recipe_value recipe) ≡ recipe
  IsNormal (thrown f) = Unit

  parsed_recipe-IsNormal : (o : Option (Value F.Num)) → IsNormal (parsed_recipe F upper json o)
  unfolding parsed_recipe
  parsed_recipe-IsNormal none = tt
  parsed_recipe-IsNormal (some v) = normalize_canonical_recipe_idem F L upper capital v

  attempt_format-IsNormal : (o : Outcome String) → IsNormal (attempt_format F upper json o)
  unfolding attempt_format parse_and_validate
  attempt_format-IsNormal (thrown f) = tt
  attempt_format-IsNormal (ok content) = parsed_recipe-IsNormal (json content)

  or_catch-IsNormal :
      (o : Outcome (CanonicalRecipe F.Num)) (handler : Failure → Outcome (CanonicalRecipe F.Num))
      → IsNormal o
      → ((f : Failure) → IsNormal (handler f))
      → IsNormal (or_catch F upper json o handler)
  unfolding or_catch
  or_catch-IsNormal (ok recipe) handler h k = h
  or_catch-IsNormal (thrown f) handler h k = k f

  format_from-IsNormal :
      (llm : ℕ → Outcome String) (attempt left : ℕ)
      → IsNormal (format_from F upper json llm attempt left)
  unfolding format_from
  format_from-IsNormal llm attempt zero =
      or_catch-IsNormal _ _ (attempt_format-IsNormal (llm attempt)) (λ f. tt)
  format_from-IsNormal llm attempt (suc left) =
      or_catch-IsNormal _ _ (attempt_format-IsNormal (llm attempt))
        (λ f. format_from-IsNormal llm (suc attempt) left)

  pub format-IsNormal : (llm : ℕ → Outcome String) → IsNormal (format F upper json llm)
  unfolding format
  format-IsNormal llm = format_from-IsNormal llm 1 (max_retries - 1)

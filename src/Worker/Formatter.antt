-- ===== src/Worker/Formatter.antt =====
-- src/application/services/recipe-formatter-service.ts: three attempts to have the language model
-- format a recipe. Its answers, by the number of the attempt, and JSON.parse are parameters.
pub mod Again
use recipe_import_from_anyth.Base.{
  ℕ, ◌-◌, zero, suc, ◌≡◌, ◌↔◌, refl, String, append, Option, none, some, List, [], ◌∷◌, arith,
}
use recipe_import_from_anyth.Value.{Value}
use recipe_import_from_anyth.Effects.{Outcome, ok, thrown, Failure, error, unrecoverable, api_error}
use recipe_import_from_anyth.Recipe.Numbers.{Floats}
use recipe_import_from_anyth.Recipe.Types.{CanonicalRecipe}
use recipe_import_from_anyth.Recipe.Canonical.{normalize_canonical_recipe}

abbrev pub max_retries : ℕ
max_retries = 3

-- `error.message`; that of an `ApiError` is its code here.
abbrev pub message_of : Failure → String
message_of (error m) = m
message_of (unrecoverable m) = m
message_of (api_error status code) = code

abbrev all_failed : Failure → Failure
all_failed f = error (append "Recipe formatting failed after 3 attempts: " (message_of f))

module _ (F : Floats) (upper : String → String) (json : String → Option (Value F.Num)) where
  parsed_recipe : Option (Value F.Num) → Outcome (CanonicalRecipe F.Num)
  parsed_recipe none = thrown (error "Invalid JSON response from LLM")
  parsed_recipe (some value) = ok (normalize_canonical_recipe F upper value)

  parse_and_validate : String → Outcome (CanonicalRecipe F.Num)
  parse_and_validate content = parsed_recipe (json content)

  -- the body of the `try`
  unfoldable pub attempt_format : Outcome String → Outcome (CanonicalRecipe F.Num)
  unfolding parse_and_validate parsed_recipe
  attempt_format (thrown f) = thrown f
  attempt_format (ok content) = parse_and_validate content

  -- `return` from the `try`, or the `catch`
  or_catch :
      Outcome (CanonicalRecipe F.Num)
      → (Failure → Outcome (CanonicalRecipe F.Num))
      → Outcome (CanonicalRecipe F.Num)
  or_catch (ok recipe) handler = ok recipe
  or_catch (thrown f) handler = handler f

  -- The loop, from an attempt on, with the number of attempts that are left after it.
  format_from : (ℕ → Outcome String) → ℕ → ℕ → Outcome (CanonicalRecipe F.Num)
  format_from llm attempt zero =
      or_catch (attempt_format (llm attempt)) (λ f. thrown (all_failed f))
  format_from llm attempt (suc left) =
      or_catch (attempt_format (llm attempt)) (λ f. format_from llm (suc attempt) left)

  pub format : (ℕ → Outcome String) → Outcome (CanonicalRecipe F.Num)
  format llm = format_from llm 1 (max_retries - 1)

  -- The first result of a list, and otherwise the last failure.
  unfoldable pub first_result :
      List (Outcome (CanonicalRecipe F.Num)) → Option (CanonicalRecipe F.Num)
  first_result [] = none
  first_result (ok recipe ∷ results) = some recipe
  first_result (thrown f ∷ results) = first_result results

  format_split :
      (a b c : Outcome (CanonicalRecipe F.Num)) (llm : ℕ → Outcome String)
      (recipe : CanonicalRecipe F.Num)
      → attempt_format (llm 1) ≡ a
      → attempt_format (llm 2) ≡ b
      → attempt_format (llm 3) ≡ c
      → (format llm ≡ ok recipe) ↔ (first_result (a ∷ b ∷ c ∷ []) ≡ some recipe)
  unfolding format format_from or_catch first_result
  format_split a b c llm recipe p q r = ground (arith, p, q, r)

  -- The formatter returns a recipe exactly when one of its three attempts gives one, and then the
  -- one of the first such attempt.
  pub format_iff :
      (llm : ℕ → Outcome String) (recipe : CanonicalRecipe F.Num)
      → (format llm ≡ ok recipe) ↔ (
          first_result
            (attempt_format (llm 1) ∷ attempt_format (llm 2) ∷ attempt_format (llm 3) ∷ [])
          ≡ some recipe)
  format_iff llm recipe = format_split _ _ _ llm recipe refl refl refl

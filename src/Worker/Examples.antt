-- ===== src/Worker/Examples.antt =====
-- The theorems of the formatter and of the scores at a small recipe.
use recipe_import_from_anyth.Base.{
  ℕ, ap, ◌∙◌, max, min, ◌*◌, ◌+◌, ◌≤◌, ◌≡◌, ◌↔◌, eqb, Bool, true, false, String, Option, none, some,
  refl, List, [], ◌∷◌, arith,
}
use recipe_import_from_anyth.Value.{Value, obj, end}
use recipe_import_from_anyth.Effects.{Outcome, ok, thrown, error, unrecoverable}
use recipe_import_from_anyth.Domain.{StepDefinition, StepCategory, job_pickup, canceled}
use recipe_import_from_anyth.Progress.{checkpoint}
use recipe_import_from_anyth.Queue.JobState.{map_bullmq_state}
use recipe_import_from_anyth.Worker.Monitor.{
  MonitorEvent, tick, answered, initial, step, steps, any_cause, Over, steps-initial,
}
use recipe_import_from_anyth.Worker.Reporter.{reported, removed_inputs}
use recipe_import_from_anyth.Worker.JobWorld.{JobWorld, TextExtractionResult, done}
use recipe_import_from_anyth.Worker.Process.{process, import_result_of}
use recipe_import_from_anyth.Worker.Process.Completion.{process-ends}
use recipe_import_from_anyth.Recipe.Lists.Enums.Again.{is_capital}
use recipe_import_from_anyth.Worker.Process.Cancel.{
  given_ref, removed_inputs-process, process-canceled,
}
use recipe_import_from_anyth.Recipe.Numbers.Whole.{whole_numbers, whole_laws}
use recipe_import_from_anyth.Worker.Process.Formatted.{process-Formatted, HoldsFormatted}
use recipe_import_from_anyth.Recipe.Types.{CanonicalRecipe}
use recipe_import_from_anyth.Recipe.Canonical.Whole.{all-HasFiniteNumbers}
use recipe_import_from_anyth.Recipe.Canonical.{normalize_canonical_recipe}
use recipe_import_from_anyth.Worker.Formatter.{
  message_of, attempt_format, format, first_result, format_iff,
}
use recipe_import_from_anyth.Worker.Scoring.{
  Confidence, high, calculate_recipe_confidence, recipe_score, new_confidence, level_of,
}

abbrev same : String → String
same s = s

abbrev empty_object : String → Option (Value ℕ)
empty_object s = some (obj end)

abbrev empty_recipe : CanonicalRecipe ℕ
empty_recipe = normalize_canonical_recipe whole_numbers same (obj end)

-- The model fails once, and then answers.
abbrev answers : ℕ → Outcome String
answers n = if_first (eqb n 1)
  where
    if_first : Bool → Outcome String
    if_first true = thrown (error "timeout")
    if_first false = ok "{}"

format_iff_example : (format whole_numbers same empty_object answers ≡ ok empty_recipe) ↔ (
    first_result whole_numbers same empty_object (
      attempt_format whole_numbers same empty_object (answers 1)
      ∷ attempt_format whole_numbers same empty_object (answers 2)
      ∷ attempt_format whole_numbers same empty_object (answers 3)
      ∷ [])
    ≡ some empty_recipe)
format_iff_example = format_iff whole_numbers same empty_object answers empty_recipe

-- A job of the images pipeline: one report, an extraction, and a model that answers at once.
abbrev one_step : List StepDefinition
one_step = record { id = "load"; label = "Load"; category = StepCategory.collecting } ∷ []

abbrev soup_extraction : TextExtractionResult ℕ
soup_extraction = record {
  raw_text = "Soup";
  artifact_refs = none;
  source_type = "images";
  source_value = some "1 image";
  extraction_confidence = 0;
  warnings = none;
}

abbrev soup_job : Bool → JobWorld ℕ
soup_job aborted = record {
  input_ref = some "mem:1";
  steps = ok one_step;
  payload_check = done tt;
  reports = reported (checkpoint job_pickup 7) ∷ [];
  extraction = done soup_extraction;
  llm = answers;
  aborted_after = aborted;
  aborted_in_catch = aborted;
  formatting_at = 8;
  completed_at = 9;
}

removed_inputs-process_example :
    removed_inputs (process whole_numbers same empty_object (soup_job false)).1
    ≡ given_ref (some "mem:1")
removed_inputs-process_example =
    removed_inputs-process whole_numbers same empty_object (soup_job false) one_step refl

process-canceled_example :
    ((process whole_numbers same empty_object (soup_job true)).0
      ≡ thrown (unrecoverable "canceled"))
    × (map_bullmq_state "failed" (some (message_of (unrecoverable "canceled"))) ≡ canceled)
process-canceled_example =
    process-canceled whole_numbers same empty_object (soup_job true) one_step refl refl refl

steps-initial_example :
    let m = steps (initial false) (tick ∷ answered true ∷ []) in
    (m.asking ≤ 1)
    × (m.aborted ≡ true → any_cause (tick ∷ answered true ∷ []) ≡ true)
    × (m.in_flight ≡ true → (step m (answered true)).aborted ≡ true)
    × (m.aborted ≡ true → (later : List MonitorEvent) → Over m (steps m later))
steps-initial_example = steps-initial (tick ∷ answered true ∷ [])

format_soup : format whole_numbers same empty_object answers ≡ ok empty_recipe
unfolding attempt_format first_result
format_soup = (format_iff whole_numbers same empty_object answers empty_recipe).1 refl

abbrev sure : Confidence ℕ
sure = record { value = 1; level = high }

one : (n : ℕ) → max 1 (min n 1) * 1 + 0 * 1 ≡ 1
one n = omega arith

sure_of_one : new_confidence whole_numbers 1 ≡ ok sure
unfolding new_confidence level_of
sure_of_one = refl

scored_soup : calculate_recipe_confidence whole_numbers empty_recipe 0 ≡ ok sure
unfolding calculate_recipe_confidence
scored_soup =
    ap (new_confidence whole_numbers) (one (recipe_score whole_numbers empty_recipe)) ∙ sure_of_one

soup_ends :
    (process whole_numbers same empty_object (soup_job false)).0
    ≡ ok (import_result_of whole_numbers same empty_recipe sure soup_extraction)
soup_ends =
    process-ends whole_numbers same empty_object (soup_job false) soup_extraction empty_recipe
      one_step sure refl refl refl scored_soup refl format_soup

capital_same : (s : String) → is_capital s ≡ true → same s ≡ s
capital_same s h = refl

process-Formatted_example :
    (e : TextExtractionResult ℕ) × (done soup_extraction ≡ done e)
    × HoldsFormatted whole_numbers whole_laws same capital_same empty_object
        (soup_job false)
        (λ recipe h. all-HasFiniteNumbers same capital_same recipe)
        e
        (import_result_of whole_numbers same empty_recipe sure soup_extraction)
process-Formatted_example =
    process-Formatted whole_numbers whole_laws same capital_same empty_object (soup_job false)
      (λ recipe h. all-HasFiniteNumbers same capital_same recipe)
      (import_result_of whole_numbers same empty_recipe sure soup_extraction) soup_ends

-- ===== src/Worker/Process.antt =====
-- `RecipeProcessor.process` of src/worker/processor.ts: one job, from its pipeline's extraction to
-- its result. What the registry, the pipeline and the language model give is an input, and so are
-- the readings of the job's signal.
pub mod Cancel
pub mod Formatted
pub mod Completion
use recipe_import_from_anyth.Base.{
  ℕ, zero, suc, ◌-◌, ◌+◌, Bool, true, false, String, append, is_empty, Option, none, some, ◌or◌,
  List, [], ◌∷◌, ◌++◌, if◌then◌else◌, decimal, head_units,
}
use recipe_import_from_anyth.Value.{Value}
use recipe_import_from_anyth.Domain.{
  StepDefinition, PipelineStatus, ProgressCheckpoint, formatting_started, JobProgress,
}
use recipe_import_from_anyth.Effects.{Outcome, ok, thrown, Failure, error, unrecoverable}
use recipe_import_from_anyth.Progress.{
  ProgressLayout, resolve_progress_layout, set_status, checkpoint,
}
use recipe_import_from_anyth.Recipe.Numbers.{Floats}
use recipe_import_from_anyth.Recipe.Types.{CanonicalRecipe}
use recipe_import_from_anyth.Worker.Formatter.{attempt_format, format, max_retries}
use recipe_import_from_anyth.Worker.Scoring.{
  Confidence, ConfidenceLevel, low, calculate_recipe_confidence,
}
use recipe_import_from_anyth.Worker.Reporter.{
  Effect, logged, removed, Report, reported, log, report_all,
}
use recipe_import_from_anyth.Recipe.Encoding.{recipe_value}
use recipe_import_from_anyth.Worker.ImportResult.{
  Warning, GivenEvidence, ImportResult, new_import_result,
}
use recipe_import_from_anyth.Worker.JobWorld.{
  TextExtractionResult, Thrown, cancellation_requested, failure, not_an_error, Attempt, done,
  raised, JobWorld,
}

abbrev is_low : ConfidenceLevel → Bool
is_low low = true
is_low _ = false

-- `${recipe.name}` in a template
abbrev name_text : Option String → String
name_text none = "undefined"
name_text (some name) = name

abbrev low_confidence : Warning
low_confidence = record {
  code = "LOW_CONFIDENCE";
  message = "Low confidence extraction: recipe data may be incomplete";
}

pub evidence_of : {N : Type 0} → TextExtractionResult N → Confidence N → GivenEvidence N
evidence_of e confidence = record {
  artifact_refs = some (e.artifact_refs or []);
  debug = some (record {
    raw_text = head_units 500 e.raw_text;
    extraction_confidence = e.extraction_confidence;
    recipe_confidence = confidence.value;
    source_type = e.source_type;
  });
}

pub warnings_of : {N : Type 0} → TextExtractionResult N → Confidence N → List Warning
warnings_of e confidence =
    (e.warnings or []) ++ (if is_low confidence.level then low_confidence ∷ [] else [])

pub import_result_of :
    (F : Floats) (upper : String → String)
    → CanonicalRecipe F.Num
    → Confidence F.Num
    → TextExtractionResult F.Num
    → ImportResult F.Num
import_result_of F upper recipe confidence e =
    new_import_result F upper (recipe_value recipe) confidence (some (evidence_of e confidence))
      (warnings_of e confidence) e.source_type (e.source_value or "")

module _ (F : Floats) (upper : String → String) (json : String → Option (Value F.Num)) where
  abbrev State : Type 0
  State = Option (JobProgress ℕ) × List Effect

  -- The lines that the formatter logs, from an attempt on, with the attempts that are left after
  -- it.
  attempt_logs : (ℕ → Outcome String) → ℕ → ℕ → List Report
  attempt_logs llm attempt zero =
      log (append "Recipe formatting attempt " (append (decimal attempt) "/3")) ∷ []
  attempt_logs llm attempt (suc left) =
      let rest = attempt_logs llm (suc attempt) left in
      log (append "Recipe formatting attempt " (append (decimal attempt) "/3"))
      ∷ elim (attempt_format F upper json (llm attempt)) [ ok recipe ↦ [] | thrown f ↦ rest ]

  pub formatter_reports : JobWorld F.Num → List Report
  formatter_reports w =
      reported (set_status PipelineStatus.formatting w.formatting_at)
      ∷ reported (checkpoint formatting_started w.formatting_at)
      ∷ attempt_logs w.llm 1 (max_retries - 1)

  -- more reports of the job's reporter, after those so far
  abbrev pub report_more : ProgressLayout → State → List Report → State
  report_more layout (current, effects) reports =
      let (next, more) = report_all layout current reports in (next, effects ++ more)

  abbrev pub finish :
      ProgressLayout
      → JobWorld F.Num
      → State
      → ImportResult F.Num
      → Attempt (ImportResult F.Num) × List Effect
  finish layout w s result = (
    done result,
    (report_more layout s (
        reported (checkpoint ProgressCheckpoint.completed w.completed_at)
        ∷ log (append "Job completed successfully: " (name_text result.recipe.name))
        ∷ [])).1,
  )

  -- phase 3
  pub after_confidence :
      ProgressLayout
      → JobWorld F.Num
      → TextExtractionResult F.Num
      → CanonicalRecipe F.Num
      → State
      → Outcome (Confidence F.Num)
      → Attempt (ImportResult F.Num) × List Effect
  after_confidence layout w e recipe s (thrown f) = (raised (failure f), s.1)
  after_confidence layout w e recipe s (ok confidence) =
      finish layout w s (import_result_of F upper recipe confidence e)

  pub after_formatting :
      ProgressLayout
      → JobWorld F.Num
      → TextExtractionResult F.Num
      → State
      → Outcome (CanonicalRecipe F.Num)
      → Attempt (ImportResult F.Num) × List Effect
  after_formatting layout w e s (thrown f) = (raised (failure f), s.1)
  after_formatting layout w e s (ok recipe) =
      let more = log (append "Recipe formatting completed: " (name_text recipe.name)) ∷ [] in
      after_confidence layout w e recipe (report_more layout s more)
        (calculate_recipe_confidence F recipe e.extraction_confidence)

  -- phase 2, with what the signal says
  pub after_pipeline :
      ProgressLayout
      → JobWorld F.Num
      → TextExtractionResult F.Num
      → State
      → Bool
      → Attempt (ImportResult F.Num) × List Effect
  after_pipeline layout w e s true = (raised cancellation_requested, s.1)
  after_pipeline layout w e s false =
      after_formatting layout w e (report_more layout s (formatter_reports w))
        (format F upper json w.llm)

  pub after_extraction :
      ProgressLayout
      → JobWorld F.Num
      → State
      → Attempt (TextExtractionResult F.Num)
      → Attempt (ImportResult F.Num) × List Effect
  after_extraction layout w s (raised t) = (raised t, s.1)
  after_extraction layout w s (done e) =
      let more = log (append "Pipeline extraction completed: " e.source_type) ∷ [] in
      after_pipeline layout w e (report_more layout s more) w.aborted_after

  -- phase 1
  pub after_check :
      ProgressLayout
      → JobWorld F.Num
      → Attempt (Unit {0})
      → Attempt (ImportResult F.Num) × List Effect
  after_check layout w (raised t) = (raised t, [])
  after_check layout w (done u) =
      after_extraction layout w (report_all layout none w.reports) w.extraction

  -- the `catch`, with what the signal says
  pub caught : Bool → Thrown → Failure
  caught true t = unrecoverable "canceled"
  caught false cancellation_requested = unrecoverable "canceled"
  caught false (failure f) = f
  caught false not_an_error = error "Pipeline execution failed"

  pub settle : Bool → Attempt (ImportResult F.Num) → Outcome (ImportResult F.Num)
  settle aborted (done result) = ok result
  settle aborted (raised t) = thrown (caught aborted t)

  -- the `finally`
  pub remove_input : Option String → List Effect
  remove_input none = []
  remove_input (some ref) = if is_empty ref then [] else removed ref ∷ []

  pub process_from :
      JobWorld F.Num → Outcome (List StepDefinition) → Outcome (ImportResult F.Num) × List Effect
  process_from w (thrown f) = (thrown f, [])
  process_from w (ok steps) =
      let (attempt, effects) = after_check (resolve_progress_layout steps) w w.payload_check in
      (settle w.aborted_in_catch attempt, effects ++ remove_input w.input_ref)

  pub process : JobWorld F.Num → Outcome (ImportResult F.Num) × List Effect
  process w = process_from w w.steps

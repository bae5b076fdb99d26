-- ===== src/Worker/JobWorld.antt =====
-- packages/domain/src/extraction-result.ts and the rest of what `RecipeProcessor.process` of
-- src/worker/processor.ts takes and gives.
use recipe_import_from_anyth.Base.{ℕ, Bool, String, Option, List}
use recipe_import_from_anyth.Domain.{StepDefinition}
use recipe_import_from_anyth.Effects.{Outcome, Failure}
use recipe_import_from_anyth.Worker.ImportResult.{Warning}
use recipe_import_from_anyth.Worker.Reporter.{Report}

-- packages/domain/src/extraction-result.ts
pub record TextExtractionResult (N : Type 0) : Type 0 where
  pub raw_text : String
  pub artifact_refs : Option (List String)
  pub source_type : String
  pub source_value : Option String
  pub extraction_confidence : N
  pub warnings : Option (List Warning)

-- What the `catch` tells apart.
pub data Thrown : Type 0 where
  cancellation_requested : Thrown
  failure : Failure → Thrown
  not_an_error : Thrown

pub data Attempt {ℓ} (A : Type ℓ) : Type ℓ where
  done : A → Attempt A
  raised : Thrown → Attempt A

-- What one run of a job meets: its input reference, the pipeline's steps from the registry, the
-- check of its payload, the pipeline's reports and what it gives, the model's answers, what the
-- signal says after the extraction and in the `catch`, and the two times of the worker's reports.
pub record JobWorld (N : Type 0) : Type 0 where
  pub input_ref : Option String
  pub steps : Outcome (List StepDefinition)
  pub payload_check : Attempt (Unit {0})
  pub reports : List Report
  pub extraction : Attempt (TextExtractionResult N)
  pub llm : ℕ → Outcome String
  pub aborted_after : Bool
  pub aborted_in_catch : Bool
  pub formatting_at : ℕ
  pub completed_at : ℕ

-- ===== src/Worker/Process/Completion.antt =====
-- Jobs that end with a result.
use recipe_import_from_anyth.Base.{ℕ, ◌≡◌, ◌∙◌, refl, ap, Bool, false, String, Option, none, List}
use recipe_import_from_anyth.Value.{Value}
use recipe_import_from_anyth.Domain.{StepDefinition, JobProgress}
use recipe_import_from_anyth.Effects.{Outcome, ok}
use recipe_import_from_anyth.Progress.{ProgressLayout, resolve_progress_layout}
use recipe_import_from_anyth.Recipe.Numbers.{Floats}
use recipe_import_from_anyth.Recipe.Types.{CanonicalRecipe}
use recipe_import_from_anyth.Worker.Formatter.{format}
use recipe_import_from_anyth.Worker.Scoring.{Confidence, calculate_recipe_confidence}
use recipe_import_from_anyth.Worker.Reporter.{Effect, report_all}
use recipe_import_from_anyth.Worker.ImportResult.{ImportResult}
use recipe_import_from_anyth.Worker.JobWorld.{JobWorld, TextExtractionResult, Attempt, done}
use recipe_import_from_anyth.Worker.Process.{
  import_result_of, report_more, formatter_reports, after_confidence, after_formatting,
  after_pipeline, after_extraction, after_check, settle, process_from, process,
}

module _ (F : Floats) (upper : String → String) (json : String → Option (Value F.Num))
    (w : JobWorld F.Num) (e : TextExtractionResult F.Num) (recipe : CanonicalRecipe F.Num) where
  -- an attempt that has ended with this confidence
  abbrev Ends : Confidence F.Num → Attempt (ImportResult F.Num) → Type 0
  Ends c a = a ≡ done (import_result_of F upper recipe c e)

  after_formatting-Ends :
      (layout : ProgressLayout) (s : Option (JobProgress ℕ) × List Effect) (c : Confidence F.Num)
      → calculate_recipe_confidence F recipe e.extraction_confidence ≡ ok c
      → Ends c (after_formatting F upper json layout w e s (ok recipe)).0
  unfolding after_formatting after_confidence
  after_formatting-Ends layout s c q = rw q refl

  after_pipeline-Ends :
      (layout : ProgressLayout) (s : Option (JobProgress ℕ) × List Effect) (c : Confidence F.Num)
      → calculate_recipe_confidence F recipe e.extraction_confidence ≡ ok c
      → w.aborted_after ≡ false
      → format F upper json w.llm ≡ ok recipe
      → Ends c (after_pipeline F upper json layout w e s w.aborted_after).0
  unfolding after_pipeline
  after_pipeline-Ends layout s c q a p =
      ap (λ b. (after_pipeline F upper json layout w e s b).0) a
      ∙ ap
          (λ o.
            (after_formatting F upper json layout w e
              (report_more F upper json layout s (formatter_reports F upper json w)) o).0)
          p
      ∙ after_formatting-Ends layout _ c q

  after_check-Ends :
      (layout : ProgressLayout) (c : Confidence F.Num)
      → calculate_recipe_confidence F recipe e.extraction_confidence ≡ ok c
      → w.payload_check ≡ done tt
      → w.extraction ≡ done e
      → w.aborted_after ≡ false
      → format F upper json w.llm ≡ ok recipe
      → Ends c (after_check F upper json layout w w.payload_check).0
  unfolding after_check after_extraction
  after_check-Ends layout c q accepted x a p =
      ap (λ check. (after_check F upper json layout w check).0) accepted
      ∙ ap (λ o. (after_extraction F upper json layout w (report_all layout none w.reports) o).0) x
      ∙ after_pipeline-Ends layout _ c q a p

  settle-done :
      (aborted : Bool) (c : Confidence F.Num) (a : Attempt (ImportResult F.Num))
      → Ends c a
      → settle F upper json aborted a ≡ ok (import_result_of F upper recipe c e)
  unfolding settle
  settle-done aborted c a h = rw h refl

  process_from-Ends :
      (found : Outcome (List StepDefinition)) (steps : List StepDefinition) (c : Confidence F.Num)
      → found ≡ ok steps
      → Ends c (after_check F upper json (resolve_progress_layout steps) w w.payload_check).0
      → (process_from F upper json w found).0 ≡ ok (import_result_of F upper recipe c e)
  unfolding process_from
  process_from-Ends found steps c p h = rw p (settle-done w.aborted_in_catch c _ h)

  -- A job ends with a result where the registry knows its pipeline, its payload is accepted, its
  -- extraction succeeds, it is not canceled by the end of the extraction, the formatter gives a
  -- recipe, and the recipe has a confidence.
  pub process-ends :
      (steps : List StepDefinition) (c : Confidence F.Num)
      → w.steps ≡ ok steps
      → w.payload_check ≡ done tt
      → w.extraction ≡ done e
      → calculate_recipe_confidence F recipe e.extraction_confidence ≡ ok c
      → w.aborted_after ≡ false
      → format F upper json w.llm ≡ ok recipe
      → (process F upper json w).0 ≡ ok (import_result_of F upper recipe c e)
  unfolding process
  process-ends steps c known accepted x q a p =
      process_from-Ends w.steps steps c known
        (after_check-Ends (resolve_progress_layout steps) c q accepted x a p)

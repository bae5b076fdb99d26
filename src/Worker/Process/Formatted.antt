-- ===== src/Worker/Process/Formatted.antt =====
-- The recipe of a job's result is the one that the formatter gave.
use recipe_import_from_anyth.Base.{
  ℕ, ◌≡◌, ◌∙◌, refl, ap, sym, subst, Bool, true, false, String, Option, List, [], ◌or◌,
}
use recipe_import_from_anyth.Value.{Value}
use recipe_import_from_anyth.Domain.{StepDefinition, JobProgress}
use recipe_import_from_anyth.Effects.{Outcome, ok, thrown}
use recipe_import_from_anyth.Progress.{ProgressLayout, resolve_progress_layout}
use recipe_import_from_anyth.Recipe.Numbers.{Floats}
use recipe_import_from_anyth.Recipe.Numbers.Counts.{FloatLaws}
use recipe_import_from_anyth.Recipe.Lists.Enums.Again.{is_capital}
use recipe_import_from_anyth.Recipe.Canonical.Again.{HasFiniteNumbers}
use recipe_import_from_anyth.Recipe.Types.{CanonicalRecipe}
use recipe_import_from_anyth.Worker.Formatter.{format}
use recipe_import_from_anyth.Worker.Formatter.Again.{IsNormal, format-IsNormal}
use recipe_import_from_anyth.Worker.Scoring.{Confidence, calculate_recipe_confidence}
use recipe_import_from_anyth.Worker.Reporter.{Effect}
use recipe_import_from_anyth.Worker.ImportResult.{ImportResult, new_import_result}
use recipe_import_from_anyth.Worker.JobWorld.{JobWorld, TextExtractionResult, Attempt, done, raised}
use recipe_import_from_anyth.Worker.Process.{
  import_result_of, evidence_of, after_confidence, after_formatting, after_pipeline,
  after_extraction, after_check, settle, process_from, process,
}

module _ (F : Floats) (L : FloatLaws F) (upper : String → String)
    (capital : (s : String) → is_capital s ≡ true → upper s ≡ s)
    (json : String → Option (Value F.Num)) (w : JobWorld F.Num)
    (fine : (recipe : CanonicalRecipe F.Num)
      → format F upper json w.llm ≡ ok recipe
      → HasFiniteNumbers F L upper capital recipe) where
  -- what holds of a run's result, where it has one
  abbrev pub HoldsFormatted : TextExtractionResult F.Num → ImportResult F.Num → Type 0
  HoldsFormatted e r =
      (format F upper json w.llm ≡ ok r.recipe)
      × (calculate_recipe_confidence F r.recipe e.extraction_confidence ≡ ok r.confidence)
      × (r.evidence.artifact_refs ≡ (e.artifact_refs or []))
      × (r.source_type ≡ e.source_type)

  abbrev Formatted : Attempt (ImportResult F.Num) → Type 0
  Formatted (done r) =
      (e : TextExtractionResult F.Num) × (w.extraction ≡ done e) × HoldsFormatted e r
  Formatted (raised t) = Unit

  after_confidence-Formatted :
      (layout : ProgressLayout) (e : TextExtractionResult F.Num) (recipe : CanonicalRecipe F.Num)
      (s : Option (JobProgress ℕ) × List Effect) (c : Outcome (Confidence F.Num))
      → w.extraction ≡ done e
      → format F upper json w.llm ≡ ok recipe
      → IsNormal F L upper capital json (ok recipe)
      → calculate_recipe_confidence F recipe e.extraction_confidence ≡ c
      → Formatted (after_confidence F upper json layout w e recipe s c).0
  unfolding after_confidence import_result_of new_import_result evidence_of
  after_confidence-Formatted layout e recipe s (thrown f) x p n q = tt
  after_confidence-Formatted layout e recipe s (ok c) x p k q =
      let n = k (fine recipe p) in
      (
        e,
        x,
        (
          p ∙ ap ok (sym n),
          ap (λ r. calculate_recipe_confidence F r e.extraction_confidence) n ∙ q,
          refl,
          refl,
        ),
      )

  after_formatting-Formatted :
      (layout : ProgressLayout) (e : TextExtractionResult F.Num)
      (s : Option (JobProgress ℕ) × List Effect) (o : Outcome (CanonicalRecipe F.Num))
      → w.extraction ≡ done e
      → format F upper json w.llm ≡ o
      → IsNormal F L upper capital json o
      → Formatted (after_formatting F upper json layout w e s o).0
  unfolding after_formatting
  after_formatting-Formatted layout e s (thrown f) x p n = tt
  after_formatting-Formatted layout e s (ok recipe) x p n =
      after_confidence-Formatted layout e recipe _ _ x p n refl

  after_pipeline-Formatted :
      (layout : ProgressLayout) (e : TextExtractionResult F.Num)
      (s : Option (JobProgress ℕ) × List Effect) (aborted : Bool)
      → w.extraction ≡ done e
      → Formatted (after_pipeline F upper json layout w e s aborted).0
  unfolding after_pipeline
  after_pipeline-Formatted layout e s true x = tt
  after_pipeline-Formatted layout e s false x =
      after_formatting-Formatted layout e _ _ x refl (format-IsNormal F L upper capital json w.llm)

  after_extraction-Formatted :
      (layout : ProgressLayout) (s : Option (JobProgress ℕ) × List Effect)
      (extraction : Attempt (TextExtractionResult F.Num))
      → w.extraction ≡ extraction
      → Formatted (after_extraction F upper json layout w s extraction).0
  unfolding after_extraction
  after_extraction-Formatted layout s (raised t) x = tt
  after_extraction-Formatted layout s (done e) x =
      after_pipeline-Formatted layout e _ w.aborted_after x

  after_check-Formatted :
      (layout : ProgressLayout) (check : Attempt (Unit {0}))
      → Formatted (after_check F upper json layout w check).0
  unfolding after_check
  after_check-Formatted layout (raised t) = tt
  after_check-Formatted layout (done u) = after_extraction-Formatted layout _ w.extraction refl

  settle-Formatted :
      (a : Attempt (ImportResult F.Num)) (aborted : Bool) (r : ImportResult F.Num)
      → Formatted a
      → settle F upper json aborted a ≡ ok r
      → (e : TextExtractionResult F.Num) × (w.extraction ≡ done e) × HoldsFormatted e r
  unfolding settle
  settle-Formatted (done r') aborted r h e =
      let same : r' ≡ r = cc e in subst (λ x. Formatted (done x)) same h
  settle-Formatted (raised t) aborted r h e = cc

  process_from-Formatted :
      (found : Outcome (List StepDefinition)) (r : ImportResult F.Num)
      → (process_from F upper json w found).0 ≡ ok r
      → (e : TextExtractionResult F.Num) × (w.extraction ≡ done e) × HoldsFormatted e r
  unfolding process_from
  process_from-Formatted (thrown f) r e = cc
  process_from-Formatted (ok steps) r e =
      settle-Formatted _ w.aborted_in_catch r
        (after_check-Formatted (resolve_progress_layout steps) w.payload_check) e

  -- A job that ends with a result has an extraction, and the result holds exactly the recipe that
  -- the formatter gave, though it is normalized once more, with the confidence computed from it and
  -- from the extraction, and the extraction's artifacts and type of source, where `toUpperCase`
  -- leaves capitals as they are and the numbers of the formatter's recipe are finite.
  pub process-Formatted :
      (r : ImportResult F.Num)
      → (process F upper json w).0 ≡ ok r
      → (e : TextExtractionResult F.Num) × (w.extraction ≡ done e) × HoldsFormatted e r
  unfolding process
  process-Formatted r e = process_from-Formatted w.steps r e

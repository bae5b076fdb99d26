-- ===== src/Worker/Process/Cancel.antt =====
-- How a job ends: its input is removed, and a canceled job fails for good.
use recipe_import_from_anyth.Base.{
  ℕ, ◌≡◌, refl, Bool, true, false, Bool-cases, inl, inr, String, is_empty, Option, none, some, List,
  [], ◌∷◌, if◌then◌else◌, ◌∙◌, ap,
}
use recipe_import_from_anyth.Value.{Value}
use recipe_import_from_anyth.Domain.{StepDefinition, JobProgress, canceled}
use recipe_import_from_anyth.Effects.{Outcome, ok, thrown, Failure, unrecoverable}
use recipe_import_from_anyth.Progress.{ProgressLayout, resolve_progress_layout}
use recipe_import_from_anyth.Recipe.Numbers.{Floats}
use recipe_import_from_anyth.Recipe.Types.{CanonicalRecipe}
use recipe_import_from_anyth.Worker.Formatter.{message_of}
use recipe_import_from_anyth.Worker.Scoring.{Confidence}
use recipe_import_from_anyth.Worker.Reporter.{
  Effect, Report, removed_inputs, removed_inputs-append, removed_inputs-report_all,
}
use recipe_import_from_anyth.Worker.ImportResult.{ImportResult}
use recipe_import_from_anyth.Worker.JobWorld.{JobWorld, TextExtractionResult, Attempt, done, raised}
use recipe_import_from_anyth.Worker.Process.{
  report_more, after_confidence, after_formatting, after_pipeline, after_extraction, after_check,
  caught, settle, remove_input, process_from, process,
}
use recipe_import_from_anyth.Queue.JobState.{map_bullmq_state, says_canceled}

-- the input reference that is given and not empty
abbrev pub given_ref : Option String → List String
given_ref none = []
given_ref (some ref) = if is_empty ref then [] else ref ∷ []

module _ (F : Floats) (upper : String → String) (json : String → Option (Value F.Num)) where
  -- No input is removed by what the phases do.
  abbrev Keeps : {A : Type 0} → A × List Effect → Type 0
  Keeps r = removed_inputs r.1 ≡ []

  report_more-Keeps :
      (layout : ProgressLayout) (s : Option (JobProgress ℕ) × List Effect) (reports : List Report)
      → Keeps s
      → Keeps (report_more F upper json layout s reports)
  report_more-Keeps layout s reports h =
      removed_inputs-append s.1 _ h ∙ removed_inputs-report_all layout s.0 reports

  after_confidence-Keeps :
      (layout : ProgressLayout) (w : JobWorld F.Num) (e : TextExtractionResult F.Num)
      (recipe : CanonicalRecipe F.Num) (s : Option (JobProgress ℕ) × List Effect)
      (c : Outcome (Confidence F.Num))
      → Keeps s
      → Keeps (after_confidence F upper json layout w e recipe s c)
  unfolding after_confidence
  after_confidence-Keeps layout w e recipe s (thrown f) h = h
  after_confidence-Keeps layout w e recipe s (ok c) h = report_more-Keeps layout s _ h

  after_formatting-Keeps :
      (layout : ProgressLayout) (w : JobWorld F.Num) (e : TextExtractionResult F.Num)
      (s : Option (JobProgress ℕ) × List Effect) (recipe : Outcome (CanonicalRecipe F.Num))
      → Keeps s
      → Keeps (after_formatting F upper json layout w e s recipe)
  unfolding after_formatting
  after_formatting-Keeps layout w e s (thrown f) h = h
  after_formatting-Keeps layout w e s (ok recipe) h =
      after_confidence-Keeps layout w e recipe _ _ (report_more-Keeps layout s _ h)

  after_pipeline-Keeps :
      (layout : ProgressLayout) (w : JobWorld F.Num) (e : TextExtractionResult F.Num)
      (s : Option (JobProgress ℕ) × List Effect) (aborted : Bool)
      → Keeps s
      → Keeps (after_pipeline F upper json layout w e s aborted)
  unfolding after_pipeline
  after_pipeline-Keeps layout w e s true h = h
  after_pipeline-Keeps layout w e s false h =
      after_formatting-Keeps layout w e _ _ (report_more-Keeps layout s _ h)

  after_extraction-Keeps :
      (layout : ProgressLayout) (w : JobWorld F.Num) (s : Option (JobProgress ℕ) × List Effect)
      (extraction : Attempt (TextExtractionResult F.Num))
      → Keeps s
      → Keeps (after_extraction F upper json layout w s extraction)
  unfolding after_extraction
  after_extraction-Keeps layout w s (raised t) h = h
  after_extraction-Keeps layout w s (done e) h =
      after_pipeline-Keeps layout w e _ w.aborted_after (report_more-Keeps layout s _ h)

  after_check-Keeps :
      (layout : ProgressLayout) (w : JobWorld F.Num) (check : Attempt (Unit {0}))
      → Keeps (after_check F upper json layout w check)
  unfolding after_check removed_inputs
  after_check-Keeps layout w (raised t) = refl
  after_check-Keeps layout w (done u) =
      after_extraction-Keeps layout w _ w.extraction
        (removed_inputs-report_all layout none w.reports)

  removed_inputs-remove_input :
      (ref : Option String) → removed_inputs (remove_input F upper json ref) ≡ given_ref ref
  unfolding removed_inputs remove_input
  removed_inputs-remove_input none = refl
  removed_inputs-remove_input (some ref) = elim (Bool-cases (is_empty ref)) [
    | inl empty ↦ rw empty refl
    | inr filled ↦ rw filled refl
  ]

  process_from-Keeps :
      (w : JobWorld F.Num) (found : Outcome (List StepDefinition)) (steps : List StepDefinition)
      → found ≡ ok steps
      → removed_inputs (process_from F upper json w found).1 ≡ given_ref w.input_ref
  unfolding process_from
  process_from-Keeps w (thrown f) steps e = cc e
  process_from-Keeps w (ok found) steps e =
      removed_inputs-append _ _
        (after_check-Keeps (resolve_progress_layout found) w w.payload_check)
      ∙ removed_inputs-remove_input w.input_ref

  -- Where the registry knows the job's pipeline, a run of the job removes its temporary input,
  -- once, and no other, however the run ends.
  pub removed_inputs-process :
      (w : JobWorld F.Num) (steps : List StepDefinition)
      → w.steps ≡ ok steps
      → removed_inputs (process F upper json w).1 ≡ given_ref w.input_ref
  unfolding process
  removed_inputs-process w steps e = process_from-Keeps w w.steps steps e

  abbrev canceled_failure : Failure
  canceled_failure = unrecoverable "canceled"

  -- The attempt of a run whose signal has fired by the end of the extraction gives no result.
  abbrev FailsCanceled : Attempt (ImportResult F.Num) × List Effect → Type 0
  FailsCanceled r = settle F upper json true r.0 ≡ thrown canceled_failure

  after_pipeline-canceled :
      (layout : ProgressLayout) (w : JobWorld F.Num) (e : TextExtractionResult F.Num)
      (s : Option (JobProgress ℕ) × List Effect) (aborted : Bool)
      → aborted ≡ true
      → FailsCanceled (after_pipeline F upper json layout w e s aborted)
  unfolding settle caught after_pipeline
  after_pipeline-canceled layout w e s true a = refl
  after_pipeline-canceled layout w e s false a = cc a

  after_extraction-canceled :
      (layout : ProgressLayout) (w : JobWorld F.Num) (s : Option (JobProgress ℕ) × List Effect)
      (extraction : Attempt (TextExtractionResult F.Num))
      → w.aborted_after ≡ true
      → FailsCanceled (after_extraction F upper json layout w s extraction)
  unfolding settle caught after_extraction
  after_extraction-canceled layout w s (raised t) a = refl
  after_extraction-canceled layout w s (done e) a =
      after_pipeline-canceled layout w e _ w.aborted_after a

  after_check-canceled :
      (layout : ProgressLayout) (w : JobWorld F.Num) (check : Attempt (Unit {0}))
      → w.aborted_after ≡ true
      → FailsCanceled (after_check F upper json layout w check)
  unfolding settle caught after_check
  after_check-canceled layout w (raised t) a = refl
  after_check-canceled layout w (done u) a = after_extraction-canceled layout w _ w.extraction a

  process_from-canceled :
      (w : JobWorld F.Num) (found : Outcome (List StepDefinition)) (steps : List StepDefinition)
      → found ≡ ok steps
      → w.aborted_after ≡ true
      → w.aborted_in_catch ≡ true
      → (process_from F upper json w found).0 ≡ thrown canceled_failure
  unfolding process_from
  process_from-canceled w (thrown f) steps e a c = cc e
  process_from-canceled w (ok found) steps e a c =
      ap
        (λ b.
          settle F upper json b
            (after_check F upper json (resolve_progress_layout found) w w.payload_check).0)
        c
      ∙ after_check-canceled (resolve_progress_layout found) w w.payload_check a

  -- Where the registry knows the job's pipeline and the job's signal has fired by the end of the
  -- extraction, and stays so, the run fails for good with the message "canceled", and the service
  -- reads a job that failed with it as canceled.
  pub process-canceled :
      (w : JobWorld F.Num) (steps : List StepDefinition)
      → w.steps ≡ ok steps
      → w.aborted_after ≡ true
      → w.aborted_in_catch ≡ true
      → ((process F upper json w).0 ≡ thrown canceled_failure)
        × (map_bullmq_state "failed" (some (message_of canceled_failure)) ≡ canceled)
  unfolding process map_bullmq_state says_canceled
  process-canceled w steps e a c = (process_from-canceled w w.steps steps e a c, refl)

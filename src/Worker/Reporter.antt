-- ===== src/Worker/Reporter.antt =====
-- `createProgressReporter` of src/worker/processor.ts: the reports of a pipeline and of the
-- formatter become updates of the job's progress and lines of its log.
use recipe_import_from_anyth.Base.{ℕ, String, append, Option, some, List, [], ◌∷◌, ◌++◌, ◌≡◌, refl}
use recipe_import_from_anyth.Domain.{
  ProgressCheckpoint, job_pickup, images_loaded, ocr_started, ocr_progress_1, ocr_progress_2,
  ocr_progress_3, formatting_started, JobProgress,
}
use recipe_import_from_anyth.Progress.{ProgressLayout, ProgressCall, set_status, checkpoint, track}
use recipe_import_from_anyth.Progress.Stored.{status_name}

-- What the worker does that others see: an update of the progress, a line of the job's log, and the
-- removal of a temporary input.
pub data Effect : Type 0 where
  progressed : JobProgress ℕ → Effect
  logged : String → Effect
  removed : String → Effect

-- A call of the reporter's methods.
pub data Report : Type 0 where
  reported : ProgressCall → Report
  log : String → Report

abbrev pub checkpoint_name : ProgressCheckpoint → String
checkpoint_name job_pickup = "job_pickup"
checkpoint_name images_loaded = "images_loaded"
checkpoint_name ocr_started = "ocr_started"
checkpoint_name ocr_progress_1 = "ocr_progress_1"
checkpoint_name ocr_progress_2 = "ocr_progress_2"
checkpoint_name ocr_progress_3 = "ocr_progress_3"
checkpoint_name formatting_started = "formatting_started"
checkpoint_name ProgressCheckpoint.completed = "completed"

abbrev log_line : ProgressCall → String
log_line (set_status status timestamp) = append "Status: " (status_name status)
log_line (checkpoint c timestamp) = append "Checkpoint: " (checkpoint_name c)

-- The reports, from the tracker's current progress on.
pub report_all :
    ProgressLayout → Option (JobProgress ℕ) → List Report → Option (JobProgress ℕ) × List Effect
report_all layout current [] = (current, [])
report_all layout current (log message ∷ reports) =
    let (last, effects) = report_all layout current reports in (last, logged message ∷ effects)
report_all layout current (reported call ∷ reports) =
    let next = track layout current call in
    let (last, effects) = report_all layout (some next) reports in
    (last, progressed next ∷ logged (log_line call) ∷ effects)

-- The temporary inputs that effects remove.
unfoldable pub removed_inputs : List Effect → List String
removed_inputs [] = []
removed_inputs (removed ref ∷ effects) = ref ∷ removed_inputs effects
removed_inputs (progressed p ∷ effects) = removed_inputs effects
removed_inputs (logged message ∷ effects) = removed_inputs effects

pub removed_inputs-append :
    (xs ys : List Effect) → removed_inputs xs ≡ [] → removed_inputs (xs ++ ys) ≡ removed_inputs ys
unfolding removed_inputs
removed_inputs-append [] ys e = refl
removed_inputs-append (removed ref ∷ xs) ys e = cc e
removed_inputs-append (progressed p ∷ xs) ys e = removed_inputs-append xs ys e
removed_inputs-append (logged message ∷ xs) ys e = removed_inputs-append xs ys e

pub removed_inputs-report_all :
    (layout : ProgressLayout) (current : Option (JobProgress ℕ)) (reports : List Report)
    → removed_inputs (report_all layout current reports).1 ≡ []
unfolding removed_inputs report_all
removed_inputs-report_all layout current [] = refl
removed_inputs-report_all layout current (log message ∷ reports) =
    removed_inputs-report_all layout current reports
removed_inputs-report_all layout current (reported call ∷ reports) =
    removed_inputs-report_all layout (some (track layout current call)) reports

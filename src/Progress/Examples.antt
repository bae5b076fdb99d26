-- ===== src/Progress/Examples.antt =====
-- Runs of the progress tracker, and its theorems at them.
use recipe_import_from_anyth.Base.{◌≡◌, ◌↔◌, ℕ, none, some, List, [], ◌∷◌}
use recipe_import_from_anyth.Domain.{
  StepCategory, StepDefinition, PipelineStatus, job_pickup, ocr_started, JobProgress,
}
use recipe_import_from_anyth.Progress.{
  resolve_progress_layout, ProgressCall, set_status, checkpoint, track_all,
}
use recipe_import_from_anyth.Progress.Bounds.{Each, InRange, track_all-InRange}
use recipe_import_from_anyth.Progress.Stored.{
  parse_stored_job_progress, stored_value, parse-IsStored_iff, IsStored,
}

abbrev steps : List StepDefinition
steps =
    record { id = "collecting"; label = "Loading images"; category = StepCategory.collecting }
    ∷ record { id = "extracting"; label = "Extracting text"; category = StepCategory.extracting }
    ∷ []

abbrev calls : List ProgressCall
calls =
    checkpoint job_pickup 1 ∷ set_status PipelineStatus.extracting 2 ∷ checkpoint ocr_started 3 ∷ []

abbrev halfway : JobProgress ℕ
halfway = record {
  percent = 60;
  status = PipelineStatus.extracting;
  step_index = 1;
  total_steps = 3;
  timestamp = 7;
}

track_all-InRange_example :
    Each
      (InRange (resolve_progress_layout steps))
      (track_all (resolve_progress_layout steps) none calls)
track_all-InRange_example = track_all-InRange steps calls

parse-IsStored_iff_example :
    (parse_stored_job_progress (stored_value halfway) ≡ some halfway)
    ↔ IsStored (stored_value halfway) halfway
parse-IsStored_iff_example = parse-IsStored_iff (stored_value halfway) halfway

-- ===== src/Progress.antt =====
-- src/infrastructure/bullmq/progress-state.ts: the progress of one job, as its worker tracks it.
-- `Date.now()` and an explicit timestamp are the argument `timestamp`; the closure's variable
-- `current` is the state that each method takes and returns.
pub mod Bounds
pub mod Monotone
pub mod Stored
mod Examples
use recipe_import_from_anyth.Base.{
  ℕ, ◌+◌, ◌-◌, max, min, Bool, true, false, Option, none, some, List, [], ◌∷◌, length, find_index,
  if◌then◌else◌, leb, is_some, ◌or◌,
}
use recipe_import_from_anyth.Domain.{
  StepCategory, StepDefinition, PipelineStatus, pending, ProgressCheckpoint, job_pickup,
  images_loaded, ocr_started, ocr_progress_1, ocr_progress_2, ocr_progress_3, formatting_started,
  checkpoint_progress, JobProgress,
}

pub record ProgressLayout : Type 0 where
  pub collecting_index : ℕ
  pub extracting_index : ℕ
  pub formatting_index : ℕ
  pub total_steps : ℕ

-- `a === b` on step categories
abbrev pub same_category : StepCategory → StepCategory → Bool
same_category StepCategory.collecting StepCategory.collecting = true
same_category StepCategory.extracting StepCategory.extracting = true
same_category StepCategory.finalizing StepCategory.finalizing = true
same_category _ _ = false

find_category : List StepDefinition → StepCategory → Option ℕ
find_category steps category = find_index (λ step. same_category step.category category) steps

-- `Math.max(0, Math.min(fallbackIndex, steps.length - 1))`: where the list is empty the difference
-- is -1 and the result 0, which truncated subtraction gives too.
pub resolve_step_index : List StepDefinition → StepCategory → ℕ → ℕ
resolve_step_index steps category fallback_index =
    find_category steps category or max 0 (min fallback_index (length steps - 1))

layout_of : List StepDefinition → Option ℕ → ProgressLayout
layout_of steps finalizing_index =
    let total_steps = if is_some finalizing_index then length steps else length steps + 1 in
    record {
      collecting_index = resolve_step_index steps StepCategory.collecting 0;
      extracting_index =
          resolve_step_index steps StepCategory.extracting (min 1 (length steps - 1));
      formatting_index = finalizing_index or (total_steps - 1);
      total_steps = total_steps;
    }

pub resolve_progress_layout : List StepDefinition → ProgressLayout
resolve_progress_layout [] = record {
  collecting_index = 0;
  extracting_index = 0;
  formatting_index = 0;
  total_steps = 1;
}
resolve_progress_layout (step ∷ steps) =
    layout_of (step ∷ steps) (find_category (step ∷ steps) StepCategory.finalizing)

abbrev create_snapshot : ProgressLayout → ℕ → PipelineStatus → ℕ → ℕ → JobProgress ℕ
create_snapshot layout percent status step_index timestamp = record {
  percent = percent;
  status = status;
  step_index = step_index;
  total_steps = layout.total_steps;
  timestamp = timestamp;
}

-- `previous?.stepIndex` and `previous?.percent`
abbrev pub step_index_of : Option (JobProgress ℕ) → Option ℕ
step_index_of none = none
step_index_of (some previous) = some previous.step_index

abbrev pub percent_of : Option (JobProgress ℕ) → Option ℕ
percent_of none = none
percent_of (some previous) = some previous.percent

status_step_index : ProgressLayout → PipelineStatus → Option (JobProgress ℕ) → ℕ
status_step_index layout PipelineStatus.collecting previous = layout.collecting_index
status_step_index layout PipelineStatus.extracting previous = layout.extracting_index
status_step_index layout PipelineStatus.formatting previous = layout.formatting_index
status_step_index layout PipelineStatus.completed previous = layout.formatting_index
status_step_index layout _ previous = step_index_of previous or layout.collecting_index

status_percent : PipelineStatus → Option (JobProgress ℕ) → ℕ
status_percent pending previous = 0
status_percent PipelineStatus.collecting previous =
    max (percent_of previous or 0) (checkpoint_progress job_pickup)
status_percent PipelineStatus.extracting previous =
    max (percent_of previous or 0) (checkpoint_progress ocr_started)
status_percent PipelineStatus.formatting previous =
    max (percent_of previous or 0) (checkpoint_progress formatting_started)
status_percent PipelineStatus.completed previous = checkpoint_progress ProgressCheckpoint.completed
status_percent _ previous = percent_of previous or 0

pub with_status : ProgressLayout → PipelineStatus → Option (JobProgress ℕ) → ℕ → JobProgress ℕ
with_status layout status previous timestamp =
    create_snapshot layout (status_percent status previous) status
      (status_step_index layout status previous) timestamp

pub with_checkpoint :
    ProgressLayout → ProgressCheckpoint → Option (JobProgress ℕ) → ℕ → JobProgress ℕ
with_checkpoint layout ProgressCheckpoint.completed previous timestamp =
    create_snapshot layout (checkpoint_progress ProgressCheckpoint.completed)
      PipelineStatus.completed (step_index_of previous or layout.formatting_index) timestamp
with_checkpoint layout job_pickup previous timestamp =
    create_snapshot layout (checkpoint_progress job_pickup) PipelineStatus.collecting
      layout.collecting_index timestamp
with_checkpoint layout images_loaded previous timestamp =
    create_snapshot layout (checkpoint_progress images_loaded) PipelineStatus.collecting
      layout.collecting_index timestamp
with_checkpoint layout formatting_started previous timestamp =
    create_snapshot layout (checkpoint_progress formatting_started) PipelineStatus.formatting
      layout.formatting_index timestamp
with_checkpoint layout ocr previous timestamp =
    create_snapshot layout (checkpoint_progress ocr) PipelineStatus.extracting
      layout.extracting_index timestamp

-- The calls of the tracker's methods that change `current`.
pub data ProgressCall : Type 0 where
  set_status : PipelineStatus → ℕ → ProgressCall
  checkpoint : ProgressCheckpoint → ℕ → ProgressCall

pub track : ProgressLayout → Option (JobProgress ℕ) → ProgressCall → JobProgress ℕ
track layout current (set_status status timestamp) = with_status layout status current timestamp
track layout current (checkpoint c timestamp) = with_checkpoint layout c current timestamp

-- `current` after a list of calls of one tracker
pub track_all : ProgressLayout → Option (JobProgress ℕ) → List ProgressCall → Option (JobProgress ℕ)
track_all layout current [] = current
track_all layout current (call ∷ calls) = track_all layout (some (track layout current call)) calls

-- ===== src/Domain.antt =====
-- packages/domain/src/types.ts, packages/pipeline-contracts/src/pipeline-types.ts and
-- src/application/domain/job.types.ts: the vocabulary of jobs and of their progress.
use recipe_import_from_anyth.Base.{ℕ, String}

pub data StepCategory : Type 0 where
  collecting extracting finalizing : StepCategory

pub record StepDefinition : Type 0 where
  pub id : String
  pub label : String
  pub category : StepCategory

pub data PipelineStatus : Type 0 where
  pending collecting extracting formatting completed failed canceled : PipelineStatus

pub data ProgressCheckpoint : Type 0 where
  job_pickup images_loaded ocr_started ocr_progress_1 ocr_progress_2 ocr_progress_3
        formatting_started completed :
      ProgressCheckpoint

abbrev pub checkpoint_progress : ProgressCheckpoint → ℕ
checkpoint_progress job_pickup = 5
checkpoint_progress images_loaded = 15
checkpoint_progress ocr_started = 20
checkpoint_progress ocr_progress_1 = 40
checkpoint_progress ocr_progress_2 = 60
checkpoint_progress ocr_progress_3 = 80
checkpoint_progress formatting_started = 90
checkpoint_progress completed = 100

-- The numbers are those of `N`: native numbers where the service computes them, any JavaScript
-- number where it reads them back.
pub record JobProgress (N : Type 0) : Type 0 where
  pub percent : N
  pub status : PipelineStatus
  pub step_index : N
  pub total_steps : N
  pub timestamp : N

pub data JobStatus : Type 0 where
  queued active completed failed canceled : JobStatus

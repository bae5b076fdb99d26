-- ===== src/Queue/JobState.antt =====
-- src/infrastructure/bullmq/interfaces/job-state-manager.ts, and `mapBullMQState` of
-- queue-operations.ts: what the service says of a job.
use recipe_import_from_anyth.Base.{
  Bool, false, ◌||◌, String, ◌==◌, Option, none, some, is_some, if◌then◌else◌,
}
use text.Mathlib.Text.{find?}
use recipe_import_from_anyth.Value.{Value, is_object}
use recipe_import_from_anyth.Domain.{
  JobProgress, JobStatus, queued, active, completed, failed, canceled,
}
use recipe_import_from_anyth.Progress.Stored.{parse_stored_job_progress}
use recipe_import_from_anyth.Ids.{JobId}
use recipe_import_from_anyth.Queue.Bull.{Bull, BullMqJob}

pub record JobState (N : Type 0) : Type 0 where
  pub status : JobStatus
  pub progress : Option (JobProgress N)
  pub failed_reason : Option String

-- `failedReason?.includes("canceled")`
unfoldable pub says_canceled : Option String → Bool
says_canceled none = false
says_canceled (some reason) = is_some (find? reason "canceled")

unfoldable pub map_bullmq_state : String → Option String → JobStatus
map_bullmq_state state failed_reason =
    if state == "waiting" || state == "delayed" || state == "prioritized" || state == "wait"
    then queued
    else if state == "active"
    then active
    else if state == "completed"
    then completed
    else if state == "failed"
    then if says_canceled failed_reason then canceled else failed
    else queued

unfoldable pub is_cancelable : String → Bool
is_cancelable state =
    state == "waiting" || state == "delayed" || state == "prioritized" || state == "active"

unfoldable pub state_of : {N : Type 0} → BullMqJob N → JobState N
state_of job = record {
  status = map_bullmq_state job.state job.failed_reason;
  progress = parse_stored_job_progress job.progress;
  failed_reason = job.failed_reason;
}

-- The stored result, where it is an object.
unfoldable pub result_of : {N : Type 0} → BullMqJob N → Option (Value N)
result_of job = if is_object job.return_value then some job.return_value else none

module _ (Q : Bull) where
  open Q use {Num, Store, get_job}

  unfoldable pub get_state : JobId → Store → Option (JobState Num)
  get_state job s = elim (get_job job.value s) [ none ↦ none | some j ↦ some (state_of j) ]

  unfoldable pub get_result : JobId → Store → Option (Value Num)
  get_result job s = elim (get_job job.value s) [ none ↦ none | some j ↦ result_of j ]

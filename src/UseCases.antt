-- ===== src/UseCases.antt =====
-- src/application/use-cases: what the service does for a request, over its queue. Each use case
-- takes the time at which it runs; the id that `new JobId()` draws is an argument. Logging is left
-- out.
pub mod Cancelling
pub mod Reading
pub mod Creating
mod Examples
use recipe_import_from_anyth.Base.{
  ℕ, Bool, true, false, ◌||◌, String, Option, none, some, if◌then◌else◌, is_empty, is_some,
}
use recipe_import_from_anyth.Value.{Value}
use recipe_import_from_anyth.Domain.{
  JobProgress, JobStatus, queued, active, completed, failed, canceled,
}
use recipe_import_from_anyth.Effects.{
  Exec, Outcome, ok, thrown, Failure, error, pure, gets, or_throw, ◌>>=◌, ◌>>◌, continue,
}
use recipe_import_from_anyth.Ids.{JobId, UserId, IdempotencyKey, new_idempotency_key}
use recipe_import_from_anyth.Queue.Redis.{Redis}
use recipe_import_from_anyth.Queue.Bull.{Bull}
use recipe_import_from_anyth.Queue.JobState.{JobState, get_state, get_result}
use recipe_import_from_anyth.Queue.Manager.{
  World, JobData, EnqueueResult, cancel, enqueue_with_idempotency,
}

pub record CancelJobResult : Type 0 where
  pub job_id : String
  pub status : JobStatus
  pub success : Bool
  pub not_found : Bool

pub record CreateImportJobInput (N : Type 0) : Type 0 where
  pub pipeline_id : String
  pub payload : Value N
  pub input_ref : Option String
  pub idempotency_key : Option String
  pub debug : Option Bool

pub record CreateImportJobResult : Type 0 where
  pub job_id : JobId
  pub is_duplicate : Bool

pub record GetJobResultResult (N : Type 0) : Type 0 where
  pub job_id : String
  pub status : JobStatus
  pub result : Option (Value N)

pub record GetJobStatusResult (N : Type 0) : Type 0 where
  pub id : String
  pub status : JobStatus
  pub progress : Option (JobProgress N)
  pub failed_reason : Option String

-- `input.idempotencyKey ? new IdempotencyKey(input.idempotencyKey) : undefined`: the empty text is
-- no key, and a blank one throws.
unfoldable pub idempotency_key_of : Option String → Outcome (Option IdempotencyKey)
idempotency_key_of none = ok none
idempotency_key_of (some text) =
    if is_empty text then ok none else elim (new_idempotency_key text) [
      | none ↦ thrown (error "IdempotencyKey cannot be empty")
      | some key ↦ ok (some key)
    ]

abbrev pub job_result : JobId → EnqueueResult → CreateImportJobResult
job_result fresh r =
    if r.created
    then record { job_id = fresh; is_duplicate = false }
    else record { job_id = record { value = r.job_id }; is_duplicate = true }

-- the data of the job that `execute` enqueues
abbrev pub job_data_of :
    {N : Type 0} → UserId → CreateImportJobInput N → Option IdempotencyKey → JobData N
job_data_of user input key = record {
  user_id = user;
  pipeline_id = input.pipeline_id;
  payload = input.payload;
  idempotency_key = key;
  input_ref = input.input_ref;
  debug = input.debug;
}

-- `state.failedReason ? { failedReason } : {}`
abbrev nonempty : Option String → Option String
nonempty none = none
nonempty (some reason) = if is_empty reason then none else some reason

module _ (R : Redis) (Q : Bull) where
  unfoldable pub create_import_job :
      JobId → UserId → CreateImportJobInput Q.Num → ℕ → Exec (World R Q) CreateImportJobResult
  create_import_job fresh user input now w = elim (idempotency_key_of input.idempotency_key) [
    | thrown f ↦ (thrown f, w)
    | ok key ↦
        continue (λ r. pure (job_result fresh r))
          (enqueue_with_idempotency R Q fresh (job_data_of user input key) now w)
  ]

  -- `currentState?.status ?? "failed"`
  abbrev current_status : Option (JobState Q.Num) → JobStatus
  current_status none = failed
  current_status (some state) = state.status

  -- the rest of `execute` once the queue has been asked to cancel
  after_cancel : JobId → Bool × World R Q → CancelJobResult × World R Q
  after_cancel job (true, w) =
      (record { job_id = job.value; status = canceled; success = true; not_found = false }, w)
  after_cancel job (false, w) = (
    record {
      job_id = job.value;
      status = current_status (get_state Q job w.queue);
      success = false;
      not_found = false;
    },
    w,
  )

  cancel_from : JobStatus → JobId → ℕ → World R Q → CancelJobResult × World R Q
  cancel_from completed job now w =
      (record { job_id = job.value; status = completed; success = false; not_found = false }, w)
  cancel_from canceled job now w =
      (record { job_id = job.value; status = canceled; success = false; not_found = false }, w)
  cancel_from _ job now w = after_cancel job (cancel R Q job now w)

  pub cancel_job : JobId → ℕ → World R Q → CancelJobResult × World R Q
  cancel_job job now w = elim (get_state Q job w.queue) [
    | none ↦ (record { job_id = job.value; status = failed; success = false; not_found = true }, w)
    | some state ↦ cancel_from state.status job now w
  ]

  unfoldable pub result_from : JobStatus → JobId → World R Q → GetJobResultResult Q.Num
  result_from completed job w = record {
    job_id = job.value;
    status = completed;
    result = get_result Q job w.queue;
  }
  result_from status job w = record { job_id = job.value; status = status; result = none }

  unfoldable pub get_job_result : JobId → World R Q → Option (GetJobResultResult Q.Num)
  get_job_result job w = elim (get_state Q job w.queue) [
    | none ↦ none
    | some state ↦ some (result_from state.status job w)
  ]

  pub get_job_status : JobId → World R Q → Option (GetJobStatusResult Q.Num)
  get_job_status job w = elim (get_state Q job w.queue) [
    | none ↦ none
    | some state ↦ some (record {
      id = job.value;
      status = state.status;
      progress = state.progress;
      failed_reason = nonempty state.failed_reason;
    })
  ]

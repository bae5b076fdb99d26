-- ===== src/Api/Jobs.antt =====
-- src/api/routes/jobs: the handlers of a job's status, result and cancellation.
pub mod Replies
mod Examples
use recipe_import_from_anyth.Base.{
  ℕ, Bool, true, false, String, Option, none, some, if◌then◌else◌, is_empty, trim,
}
use recipe_import_from_anyth.Value.{Value, get, is_record, as_string}
use recipe_import_from_anyth.Domain.{JobStatus, queued, active, completed, failed, canceled}
use recipe_import_from_anyth.Effects.{
  Exec, Outcome, ok, thrown, Failure, api_error, pure, or_throw, ◌>>=◌, continue,
}
use recipe_import_from_anyth.Ids.{JobId}
use recipe_import_from_anyth.Queue.Redis.{Redis}
use recipe_import_from_anyth.Queue.Bull.{Bull}
use recipe_import_from_anyth.Queue.Manager.{World}
use recipe_import_from_anyth.UseCases.{
  CancelJobResult, GetJobResultResult, GetJobStatusResult, cancel_job, get_job_result,
  get_job_status,
}
use recipe_import_from_anyth.Api.Errors.{Reply, respond}

-- `jobParamsSchema`: a text `id` that is not blank, trimmed
job_id_of : Option String → Outcome JobId
job_id_of none = thrown (api_error 400 "INVALID_PATH_PARAMETER")
job_id_of (some id) =
    if is_empty (trim id)
    then thrown (api_error 400 "INVALID_PATH_PARAMETER")
    else ok (record { value = trim id })

unfoldable pub parse_job_id : {N : Type 0} → Value N → Outcome JobId
unfolding job_id_of
parse_job_id params =
    if is_record params
    then job_id_of (as_string (get "id" params))
    else thrown (api_error 400 "INVALID_PATH_PARAMETER")

-- The data of a successful reply: `{ jobId, status }`.
pub record CancelReply : Type 0 where
  pub job_id : String
  pub status : JobStatus

module _ (R : Redis) (Q : Bull) where
  cancel_reply : CancelJobResult → Outcome CancelReply
  cancel_reply r =
      if r.not_found
      then thrown (api_error 404 "JOB_NOT_FOUND")
      else if r.success
      then ok (record { job_id = r.job_id; status = r.status })
      else thrown (api_error 409 "JOB_NOT_CANCELABLE")

  cancel_parsed : Outcome JobId → ℕ → Exec (World R Q) CancelReply
  cancel_parsed (thrown f) now w = (thrown f, w)
  cancel_parsed (ok job) now w = let (r, v) = cancel_job R Q job now w in (cancel_reply r, v)

  -- POST /jobs/:id/cancel
  pub cancel_job_handler : Value Q.Num → ℕ → Exec (World R Q) CancelReply
  cancel_job_handler params now w = cancel_parsed (parse_job_id params) now w

  result_by : JobStatus → GetJobResultResult Q.Num → Outcome (GetJobResultResult Q.Num)
  result_by completed r = ok r
  result_by _ r = thrown (api_error 409 "JOB_NOT_SUCCEEDED")

  result_reply : Option (GetJobResultResult Q.Num) → Outcome (GetJobResultResult Q.Num)
  result_reply none = thrown (api_error 404 "JOB_NOT_FOUND")
  result_reply (some r) = result_by r.status r

  result_parsed : Outcome JobId → World R Q → Outcome (GetJobResultResult Q.Num)
  result_parsed (thrown f) w = thrown f
  result_parsed (ok job) w = result_reply (get_job_result R Q job w)

  -- GET /jobs/:id/result
  pub get_job_result_handler : Value Q.Num → World R Q → Outcome (GetJobResultResult Q.Num)
  get_job_result_handler params w = result_parsed (parse_job_id params) w

  status_reply : Option (GetJobStatusResult Q.Num) → Outcome (GetJobStatusResult Q.Num)
  status_reply none = thrown (api_error 404 "JOB_NOT_FOUND")
  status_reply (some r) = ok r

  status_parsed : Outcome JobId → World R Q → Outcome (GetJobStatusResult Q.Num)
  status_parsed (thrown f) w = thrown f
  status_parsed (ok job) w = status_reply (get_job_status R Q job w)

  -- GET /jobs/:id
  pub get_job_status_handler : Value Q.Num → World R Q → Outcome (GetJobStatusResult Q.Num)
  get_job_status_handler params w = status_parsed (parse_job_id params) w

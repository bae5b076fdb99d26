-- ===== src/Api/Jobs/Replies.antt =====
-- Which replies the handlers of jobs send, and what has then happened.
use recipe_import_from_anyth.Base.{
  ℕ, String, Option, if◌then◌else◌, eq_iff, ◌≡◌, ◌≢◌, ◌↔◌, inl, inr, refl, true, none, some, arith,
  Option-cases, Bool-cases,
}
use recipe_import_from_anyth.Value.{Value, undefined, null, bool, num, str, arr, obj, is_object}
use recipe_import_from_anyth.Domain.{JobStatus, completed, canceled}
use recipe_import_from_anyth.Effects.{Outcome, ok, thrown, api_error}
use recipe_import_from_anyth.Ids.{JobId}
use recipe_import_from_anyth.Queue.Redis.{Redis}
use recipe_import_from_anyth.Queue.Bull.{Bull, BullMqJob}
use recipe_import_from_anyth.Queue.JobState.{
  JobState, get_state, get_result, state_of, result_of, map_bullmq_state,
}
use recipe_import_from_anyth.Queue.Manager.{World}
use recipe_import_from_anyth.Queue.Manager.Cancel.{IsStopped}
use recipe_import_from_anyth.UseCases.{
  CancelJobResult, cancel_job, get_job_result, result_from, GetJobResultResult,
}
use recipe_import_from_anyth.UseCases.Cancelling.{
  IsHonest, cancel_job-IsHonest, cancel_job-not_found_iff,
}
use recipe_import_from_anyth.Api.Jobs.{
  CancelReply, parse_job_id, cancel_reply, cancel_parsed, cancel_job_handler, result_reply,
  result_parsed, result_by, get_job_result_handler,
}

module _ (R : Redis) (Q : Bull) (params : Value Q.Num) (job : JobId) (now : ℕ) (w : World R Q)
    (parsed : parse_job_id params ≡ ok job) where
  -- What a reply to a cancellation tells of the queue after it.
  pub data CancelOutcome : Outcome CancelReply × World R Q → Type 0 where
    done :
        (v : World R Q)
        → IsStopped R Q job now w v
        → (r : CancelReply) → r.status ≡ canceled
        → CancelOutcome (ok r, v)
    missing :
        get_state Q job w.queue ≡ none → CancelOutcome (thrown (api_error 404 "JOB_NOT_FOUND"), w)
    not_cancelable :
        (state : JobState Q.Num)
        → get_state Q job w.queue ≡ some state
        → CancelOutcome (thrown (api_error 409 "JOB_NOT_CANCELABLE"), w)

  cancel_reply-CancelOutcome :
      (r : CancelJobResult) (v : World R Q)
      → IsHonest R Q job now w (r, v)
      → (r.not_found ≡ true) ↔ (get_state Q job w.queue ≡ none)
      → CancelOutcome (cancel_reply R Q r, v)
  unfolding cancel_reply
  cancel_reply-CancelOutcome r v honest absent = elim (Bool-cases r.not_found) [
    | inl nf ↦ elim (Bool-cases r.success) [
      | inl s ↦ absurd (ground (arith, honest.reported s))
      | inr f ↦ simp (nf, honest.unchanged f) (missing (absent.0 nf))
    ]
    | inr present ↦ elim (Bool-cases r.success) [
      | inl s ↦ simp (present, s) (done v (honest.stopped s) _ ((honest.reported s).0))
      | inr f ↦ elim (Option-cases (get_state Q job w.queue)) [
        | inl none_found ↦ absurd (ground (arith, absent.1 none_found))
        | inr (state, found) ↦ simp (present, f, honest.unchanged f) (not_cancelable state found)
      ]
    ]
  ]

  -- For a valid job id the reply to a cancellation is one of three. A success says "canceled", and
  -- the job is out of the queue or marked for an hour. A 404 says that the queue has no such job,
  -- and a 409 that it has one; both leave everything as it was.
  pub cancel_job_handler-CancelOutcome : CancelOutcome (cancel_job_handler R Q params now w)
  unfolding cancel_job_handler cancel_parsed
  cancel_job_handler-CancelOutcome =
      rw (parsed, cancel_job_handler)
        (cancel_reply-CancelOutcome (cancel_job R Q job now w).0 (cancel_job R Q job now w).1
          (cancel_job-IsHonest R Q job now w) (cancel_job-not_found_iff R Q job now w))

  -- A stored value, where it is an object or an array.
  abbrev pub object_in : Value Q.Num → Option (Value Q.Num)
  object_in (obj fs) = some (obj fs)
  object_in (arr xs) = some (arr xs)
  object_in _ = none

  -- What a reply to a request for the result tells of the job.
  pub data ResultOutcome : Outcome (GetJobResultResult Q.Num) → Type 0 where
    sent :
        (j : BullMqJob Q.Num)
        → Q.get_job job.value w.queue ≡ some j
        → j.state ≡ "completed"
        → (r : GetJobResultResult Q.Num)
        → (r.job_id ≡ job.value) × (r.status ≡ completed) × (r.result ≡ object_in j.return_value)
        → ResultOutcome (ok r)
    no_job :
        Q.get_job job.value w.queue ≡ none → ResultOutcome (thrown (api_error 404 "JOB_NOT_FOUND"))
    not_succeeded :
        (j : BullMqJob Q.Num)
        → Q.get_job job.value w.queue ≡ some j
        → j.state ≢ "completed"
        → ResultOutcome (thrown (api_error 409 "JOB_NOT_SUCCEEDED"))

  object_in-is_object : (v : Value Q.Num) → (if is_object v then some v else none) ≡ object_in v
  unfolding is_object
  object_in-is_object undefined = refl
  object_in-is_object null = refl
  object_in-is_object (bool b) = refl
  object_in-is_object (num n) = refl
  object_in-is_object (str s) = refl
  object_in-is_object (arr xs) = refl
  object_in-is_object (obj fs) = refl

  map_bullmq_state-completed :
      (state : String) (reason : Option String)
      → (map_bullmq_state state reason ≡ completed) ↔ (state ≡ "completed")
  unfolding map_bullmq_state
  map_bullmq_state-completed state reason =
      (λ h. ground (arith, eq_iff state "completed", h), λ h. rw h refl)

  result_reply-ResultOutcome :
      (j : BullMqJob Q.Num) (status : JobStatus)
      → Q.get_job job.value w.queue ≡ some j
      → map_bullmq_state j.state j.failed_reason ≡ status
      → ResultOutcome
          (result_by R Q (result_from R Q status job w).status (result_from R Q status job w))
  unfolding result_by result_from get_result result_of
  result_reply-ResultOutcome j completed found e =
      sent j found ((map_bullmq_state-completed j.state j.failed_reason).0 e) _
        (refl, refl, rw (result_from, get_result, found) (object_in-is_object j.return_value))
  result_reply-ResultOutcome j _ found e =
      not_succeeded j found (λ c. cc (e, (map_bullmq_state-completed j.state j.failed_reason).1 c))

  -- For a valid job id a 200 is sent exactly when BullMQ has the job in the state "completed", with
  -- the job's return value where that is an object or an array, and without a result where it is
  -- not; the reply is 404 where BullMQ has no such job, and 409 in any other state.
  pub get_job_result_handler-ResultOutcome : ResultOutcome (get_job_result_handler R Q params w)
  unfolding get_job_result_handler result_parsed result_reply get_job_result get_state state_of
  get_job_result_handler-ResultOutcome = elim (Option-cases (Q.get_job job.value w.queue)) [
    | inl absent ↦ rw (parsed, result_parsed, get_job_result, get_state, absent) (no_job absent)
    | inr (j, found) ↦
        rw (parsed, result_parsed, get_job_result, get_state, found)
          (result_reply-ResultOutcome j _ found refl)
  ]

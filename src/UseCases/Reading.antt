-- ===== src/UseCases/Reading.antt =====
-- What the use cases that read a job answer.
use recipe_import_from_anyth.Base.{◌≡◌, ◌≢◌, refl, none, some, arith, Option-cases, inl, inr}
use recipe_import_from_anyth.Domain.{JobStatus, completed}
use recipe_import_from_anyth.Ids.{JobId}
use recipe_import_from_anyth.Queue.Redis.{Redis}
use recipe_import_from_anyth.Queue.Bull.{Bull}
use recipe_import_from_anyth.Queue.JobState.{JobState, get_state, get_result}
use recipe_import_from_anyth.Queue.Manager.{World}
use recipe_import_from_anyth.UseCases.{GetJobResultResult, result_from, get_job_result}

module _ (R : Redis) (Q : Bull) (job : JobId) (w : World R Q) where
  result_from-status : (status : JobStatus) → (result_from R Q status job w).status ≡ status
  unfolding result_from
  result_from-status completed = refl
  result_from-status _ = refl

  -- The status that "get job result" gives is that of the job's state, and a result is given only
  -- for a completed job: the one that the queue stores.
  pub get_job_result-status :
      (r : GetJobResultResult Q.Num)
      → get_job_result R Q job w ≡ some r
      → (state : JobState Q.Num) × (get_state Q job w.queue ≡ some state)
        × (r.status ≡ state.status)
        × (r.status ≡ completed → r.result ≡ get_result Q job w.queue)
        × (r.status ≢ completed → r.result ≡ none)
  unfolding get_job_result result_from
  get_job_result-status r h = elim (Option-cases (get_state Q job w.queue)) [
    | inl absent ↦ absurd (ground arith)
    | inr (state, found) ↦ (state, found, ground arith, ground arith, ground arith)
  ]

  pub get_job_result-none : get_job_result R Q job w ≡ none → get_state Q job w.queue ≡ none
  unfolding get_job_result
  get_job_result-none h = ground arith

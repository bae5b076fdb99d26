-- ===== src/UseCases/Cancelling.antt =====
-- What the use case "cancel job" does to the job.
use recipe_import_from_anyth.Base.{
  ℕ, ◌≡◌, ◌↔◌, ◌⊎◌, inl, inr, refl, Bool, true, false, none, some, arith, Option-cases,
}
use recipe_import_from_anyth.Domain.{JobStatus, queued, active, completed, failed, canceled}
use recipe_import_from_anyth.Ids.{JobId}
use recipe_import_from_anyth.Queue.Redis.{Redis}
use recipe_import_from_anyth.Queue.Bull.{Bull}
use recipe_import_from_anyth.Queue.JobState.{JobState, get_state}
use recipe_import_from_anyth.Queue.Manager.{World, cancel}
use recipe_import_from_anyth.Queue.Manager.Cancel.{IsStopped, cancel-IsStopped}
use recipe_import_from_anyth.UseCases.{CancelJobResult, after_cancel, cancel_from, cancel_job}

module _ (R : Redis) (Q : Bull) (job : JobId) (now : ℕ) (w : World R Q) where
  -- What is claimed of a result and the state after it.
  pub record IsHonest (r : CancelJobResult × World R Q) : Type 0 where
    pub stopped : r.0.success ≡ true → IsStopped R Q job now w r.1
    pub reported : r.0.success ≡ true → (r.0.status ≡ canceled) × (r.0.not_found ≡ false)
    pub unchanged : r.0.success ≡ false → r.1 ≡ w

  after_cancel-IsHonest : IsHonest (after_cancel R Q job (cancel R Q job now w))
  unfolding after_cancel
  after_cancel-IsHonest =
      let laws = cancel-IsStopped R Q job now w in split (cancel R Q job now w) laws.0 laws.1
    where
      split :
          (r : Bool × World R Q)
          → (r.0 ≡ true → IsStopped R Q job now w r.1)
          → (r.0 ≡ false → r.1 ≡ w)
          → IsHonest (after_cancel R Q job r)
      split (true, v) stop keep = record {
        stopped = λ h. stop refl;
        reported = λ h. (refl, refl);
        unchanged = λ h. cc;
      }
      split (false, v) stop keep = record {
        stopped = λ h. cc;
        reported = λ h. cc;
        unchanged = λ h. keep refl;
      }

  cancel_from-IsHonest : (status : JobStatus) → IsHonest (cancel_from R Q status job now w)
  unfolding cancel_from
  cancel_from-IsHonest completed = record {
    stopped = λ h. cc;
    reported = λ h. cc;
    unchanged = λ h. refl;
  }
  cancel_from-IsHonest canceled = record {
    stopped = λ h. cc;
    reported = λ h. cc;
    unchanged = λ h. refl;
  }
  cancel_from-IsHonest queued = after_cancel-IsHonest
  cancel_from-IsHonest active = after_cancel-IsHonest
  cancel_from-IsHonest failed = after_cancel-IsHonest

  -- A cancellation that reports success has taken the job out of the queue, or has marked it for an
  -- hour, and reports the status "canceled"; one that reports none has changed nothing.
  pub cancel_job-IsHonest : IsHonest (cancel_job R Q job now w)
  unfolding cancel_job
  cancel_job-IsHonest = elim (Option-cases (get_state Q job w.queue)) [
    | inl absent ↦
        rw (absent, cancel_job)
          (record { stopped = λ h. cc; reported = λ h. cc; unchanged = λ h. refl })
    | inr (state, found) ↦ rw (found, cancel_job) (cancel_from-IsHonest state.status)
  ]

  after_cancel-found : (r : Bool × World R Q) → (after_cancel R Q job r).0.not_found ≡ false
  unfolding after_cancel
  after_cancel-found (true, v) = refl
  after_cancel-found (false, v) = refl

  cancel_from-found : (status : JobStatus) → (cancel_from R Q status job now w).0.not_found ≡ false
  unfolding cancel_from
  cancel_from-found completed = refl
  cancel_from-found canceled = refl
  cancel_from-found queued = after_cancel-found (cancel R Q job now w)
  cancel_from-found active = after_cancel-found (cancel R Q job now w)
  cancel_from-found failed = after_cancel-found (cancel R Q job now w)

  -- A job is reported as not found exactly when the queue has no job of that id.
  pub cancel_job-not_found_iff :
      ((cancel_job R Q job now w).0.not_found ≡ true) ↔ (get_state Q job w.queue ≡ none)
  unfolding cancel_job
  cancel_job-not_found_iff = elim (Option-cases (get_state Q job w.queue)) [
    | inl absent ↦ (λ h. absent, λ h. rw (absent, cancel_job))
    | inr (state, found) ↦ ground (arith, cancel_from-found state.status, found)
  ]

  -- A job that has completed or that is canceled is never canceled again: nothing changes.
  cancel_job-finished :
      (state : JobState Q.Num)
      → get_state Q job w.queue ≡ some state
      → (state.status ≡ completed) ⊎ (state.status ≡ canceled)
      → ((cancel_job R Q job now w).0.success ≡ false)
        × ((cancel_job R Q job now w).0.status ≡ state.status)
        × ((cancel_job R Q job now w).1 ≡ w)
  unfolding cancel_job cancel_from
  cancel_job-finished state found done = ground arith

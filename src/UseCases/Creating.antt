-- ===== src/UseCases/Creating.antt =====
-- A job that is asked for twice.
use recipe_import_from_anyth.Base.{
  ℕ, ◌+◌, ◌≤◌, ◌<◌, ◌≡◌, ◌≢◌, refl, ap, ◌∙◌, true, false, some, Bool-cases, inl, inr,
}
use recipe_import_from_anyth.Effects.{Outcome, ok, thrown, pure, continue}
use recipe_import_from_anyth.Ids.{JobId, UserId, IdempotencyKey}
use recipe_import_from_anyth.Queue.Redis.{Redis}
use recipe_import_from_anyth.Queue.Bull.{Bull}
use recipe_import_from_anyth.Queue.Idempotency.{idempotency_ttl_ms}
use recipe_import_from_anyth.Queue.Manager.{World, EnqueueResult, enqueue_with_idempotency}
use recipe_import_from_anyth.Queue.Manager.Enqueue.{old_job, enqueue-again}
use recipe_import_from_anyth.UseCases.{
  CreateImportJobInput, CreateImportJobResult, idempotency_key_of, job_result, job_data_of,
  create_import_job,
}

module _ (R : Redis) (Q : Bull) (fresh fresh' : JobId) (user : UserId)
    (input : CreateImportJobInput Q.Num) (key : IdempotencyKey) (now later : ℕ) (w v : World R Q)
    (named : idempotency_key_of input.idempotency_key ≡ ok (some key)) (nonempty : fresh.value ≢ "")
    (after : now ≤ later) (live : later < now + idempotency_ttl_ms) where
  again :
      (o : Outcome EnqueueResult × World R Q) (r : CreateImportJobResult)
      → enqueue_with_idempotency R Q fresh (job_data_of user input (some key)) now w ≡ o
      → continue (λ x. pure (job_result fresh x)) o ≡ (ok r, v)
      → r.is_duplicate ≡ false
      → enqueue_with_idempotency R Q fresh' (job_data_of user input (some key)) later v
        ≡ (ok (old_job fresh), v)
  again (thrown f, u) r q e new = cc
  again (ok result, u) r q e new = elim (Bool-cases result.created) [
    | inl made ↦
        let same : u ≡ v = ap (λ x. x.1) e in
        enqueue-again R Q fresh fresh' (job_data_of user input (some key))
          (job_data_of user input (some key)) key key now later w v refl refl nonempty after live
          result refl refl (q ∙ ap (λ x. (ok result, x)) same) made
    | inr old ↦ cc (rw old at e, new)
  ]

  -- Where a request under a key has created a job with an id that is not empty, the same request in
  -- the next 24 hours is answered with that job as a duplicate, and changes nothing.
  pub create_import_job-again :
      (r : CreateImportJobResult)
      → create_import_job R Q fresh user input now w ≡ (ok r, v)
      → r.is_duplicate ≡ false
      → create_import_job R Q fresh' user input later v
        ≡ (ok (record { job_id = fresh; is_duplicate = true }), v)
  unfolding create_import_job
  create_import_job-again r e new =
      rw (create_import_job, named, again _ r refl (rw (create_import_job, named) at e) new) refl

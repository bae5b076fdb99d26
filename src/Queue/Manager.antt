-- ===== src/Queue/Manager.antt =====
-- src/infrastructure/bullmq/queue-manager.ts and the QueueOperations that it is made of: the
-- service's queue, over Redis and BullMQ. Each method takes the time at which it runs; BullMQ's
-- calls that may throw are the only ones that fail.
pub mod Cancel
pub mod Enqueue
mod Examples
use recipe_import_from_anyth.Base.{
  ℕ, ◌≡◌, refl, Bool, true, false, ◌||◌, String, ◌==◌, Option, none, some, if◌then◌else◌, arith,
}
use recipe_import_from_anyth.Value.{Value}
use recipe_import_from_anyth.Effects.{
  Exec, Outcome, ok, error, pure, gets, modify, or_throw, ◌>>=◌, ◌>>◌, continue,
}
use recipe_import_from_anyth.Ids.{JobId, UserId, IdempotencyKey}
use recipe_import_from_anyth.Queue.Redis.{Redis}
use recipe_import_from_anyth.Queue.Bull.{Bull, BullMqJob, BullMqJobData}
use recipe_import_from_anyth.Queue.Idempotency.{check_and_set}
use recipe_import_from_anyth.Queue.Cancellation.{mark_canceled}

pub record JobData (N : Type 0) : Type 0 where
  pub user_id : UserId
  pub pipeline_id : String
  pub payload : Value N
  pub idempotency_key : Option IdempotencyKey
  pub input_ref : Option String
  pub debug : Option Bool

-- What the service shares: Redis and the queue.
pub record World (R : Redis) (Q : Bull) : Type 0 where
  pub redis : R.Store
  pub queue : Q.Store

pub record EnqueueResult : Type 0 where
  pub created : Bool
  pub job_id : String

abbrev key_value : Option IdempotencyKey → Option String
key_value none = none
key_value (some key) = some key.value

abbrev bullmq_data : {N : Type 0} → JobData N → BullMqJobData N
bullmq_data d = record {
  user_id = d.user_id.value;
  pipeline_id = d.pipeline_id;
  payload = d.payload;
  idempotency_key = key_value d.idempotency_key;
  input_ref = d.input_ref;
  debug = d.debug;
}

module _ (R : Redis) (Q : Bull) where
  pub get_job : JobId → World R Q → Option (BullMqJob Q.Num)
  get_job job w = Q.get_job job.value w.queue

  after_add : World R Q → Option Q.Store → Outcome (Unit {0}) × World R Q
  after_add w none = (Outcome.thrown (error "queue.add failed"), w)
  after_add w (some queue) = (ok tt, record w { queue = queue })

  pub enqueue : JobId → JobData Q.Num → Exec (World R Q) (Unit {0})
  unfolding after_add
  enqueue job d w = after_add w (Q.add job.value (bullmq_data d) w.queue)

  -- `removeJob`: an error of `job.remove()` is caught, and the answer is false.
  after_remove : World R Q → Option Q.Store → Bool × World R Q
  after_remove w none = (false, w)
  after_remove w (some queue) = (true, record w { queue = queue })

  pub remove_job : JobId → World R Q → Bool × World R Q
  remove_job job w = elim (get_job job w) [
    | none ↦ (false, w)
    | some j ↦ after_remove w (Q.remove job.value w.queue)
  ]

  mark : JobId → ℕ → World R Q → World R Q
  mark job now w = record w { redis = mark_canceled R job now w.redis }

  -- Both tests are on the state that was read first, so the second sees no removal.
  cancel_in : String → JobId → ℕ → World R Q → Bool × World R Q
  cancel_in state job now w =
      if state == "waiting" || state == "delayed" || state == "prioritized"
      then remove_job job w
      else if state == "active"
      then (true, mark job now w)
      else (false, w)

  pub cancel : JobId → ℕ → World R Q → Bool × World R Q
  cancel job now w = elim (get_job job w) [
    | none ↦ (false, w)
    | some j ↦ cancel_in j.state job now w
  ]

  -- `checkAndSet` on the shared Redis
  claim : UserId → IdempotencyKey → JobId → ℕ → World R Q → Option JobId × World R Q
  claim user key job now w =
      let (existing, redis) = check_and_set R user key job now w.redis in
      (existing, record w { redis = redis })

  enqueue_claimed :
      JobId → JobData Q.Num → Option JobId × World R Q → Outcome EnqueueResult × World R Q
  enqueue_claimed job d (some existing, w) =
      (ok (record { created = false; job_id = existing.value }), w)
  enqueue_claimed job d (none, w) =
      continue (λ _. pure (record { created = true; job_id = job.value })) (enqueue job d w)

  keyed :
      Option IdempotencyKey
      → JobId
      → JobData Q.Num
      → ℕ
      → World R Q
      → Outcome EnqueueResult × World R Q
  unfolding enqueue claim enqueue_claimed
  keyed none job d now w =
      continue (λ _. pure (record { created = true; job_id = job.value })) (enqueue job d w)
  keyed (some key) job d now w = enqueue_claimed job d (claim d.user_id key job now w)

  unfoldable pub enqueue_with_idempotency :
      JobId → JobData Q.Num → ℕ → Exec (World R Q) EnqueueResult
  unfolding keyed
  enqueue_with_idempotency job d now w = keyed d.idempotency_key job d now w

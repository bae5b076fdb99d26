-- ===== src/Queue/Manager/Examples.antt =====
-- Runs of the queue on a Redis and a BullMQ in memory, and the theorems of the queue at them.
use recipe_import_from_anyth.Base.{
  ◌≡◌, ◌≢◌, ◌≤◌, refl, ℕ, true, false, String, append, none, some, [], ◌∷◌, arith, eq_iff,
}
use recipe_import_from_anyth.Value.{null}
use recipe_import_from_anyth.Effects.{ok, thrown, error}
use recipe_import_from_anyth.Ids.{JobId, UserId, IdempotencyKey}
use recipe_import_from_anyth.Queue.Redis.{table_redis}
use recipe_import_from_anyth.Queue.Bull.{BullMqJobData, table_queue, waiting_job}
use recipe_import_from_anyth.Queue.Idempotency.{check, check_and_set}
use recipe_import_from_anyth.Queue.Manager.{
  JobData, World, enqueue_with_idempotency, cancel, get_job, after_add, enqueue, claim,
  enqueue_claimed, keyed,
}
use recipe_import_from_anyth.Queue.Manager.Enqueue.{
  new_job, old_job, enqueue-duplicate, enqueue-lost, enqueue-crosses_users,
}
use recipe_import_from_anyth.Queue.Cancellation.{is_canceled}
use recipe_import_from_anyth.Queue.Manager.Cancel.{IsStopped, cancel-IsStopped}

-- the requests of the examples
data Client : Type 0 where
  first : Client
  second : Client

abbrev alice : UserId
alice = record { value = "alice" }

abbrev alice_team : UserId
alice_team = record { value = append "alice" (append ":" "team") }

abbrev key : IdempotencyKey
key = record { value = "k1" }

abbrev team_key : IdempotencyKey
team_key = record { value = append "team" (append ":" "k1") }

abbrev job : Client → JobId
job first = record { value = "j1" }
job second = record { value = "j2" }

abbrev request : UserId → IdempotencyKey → JobData ℕ
request user k = record {
  user_id = user;
  pipeline_id = "instagram";
  payload = null;
  idempotency_key = some k;
  input_ref = none;
  debug = none;
}

abbrev Memory : Type 0
Memory = World table_redis (table_queue ℕ)

-- a queue that answers, and one that does not
abbrev empty : Memory
empty = record { redis = []; queue = (true, []) }

abbrev offline : Memory
offline = record { redis = []; queue = (false, []) }

-- the queue after a request
abbrev after : UserId → IdempotencyKey → Memory → Memory
after user k w =
    (enqueue_with_idempotency table_redis (table_queue ℕ) (job first) (request user k) 5 w).1

j1-nonempty : (job first).value ≢ ""
j1-nonempty = ground (arith, eq_iff "j1" "")

request-created :
    (user : UserId) (k : IdempotencyKey)
    → enqueue_with_idempotency table_redis (table_queue ℕ) (job first) (request user k) 5 empty
      ≡ (ok (new_job (job first)), after user k empty)
unfolding enqueue_with_idempotency keyed claim enqueue_claimed enqueue after_add check_and_set check
request-created user k = refl

request-lost :
    enqueue_with_idempotency table_redis (table_queue ℕ) (job first) (request alice key) 5 offline
    ≡ (thrown (error "queue.add failed"), after alice key offline)
unfolding enqueue_with_idempotency keyed claim enqueue_claimed enqueue after_add check_and_set check
request-lost = refl

enqueue-duplicate_example :
    enqueue_with_idempotency table_redis
      (table_queue ℕ)
      (job second)
      (request alice key)
      9
      (after alice key empty)
    ≡ (ok (old_job (job first)), after alice key empty)
enqueue-duplicate_example =
    enqueue-duplicate table_redis (table_queue ℕ) (job first) (job second) (request alice key)
      (request alice key) key key 5 9 empty (after alice key empty) refl refl j1-nonempty
      (omega arith) (omega arith) refl refl (request-created alice key)

enqueue-lost_example :
    ((after alice key offline).queue ≡ offline.queue)
    × (enqueue_with_idempotency table_redis
          (table_queue ℕ)
          (job second)
          (request alice key)
          9
          (after alice key offline)
        ≡ (ok (old_job (job first)), after alice key offline))
enqueue-lost_example =
    enqueue-lost table_redis (table_queue ℕ) (job first) (job second) (request alice key)
      (request alice key) key key 5 9 offline (after alice key offline) refl refl j1-nonempty
      (omega arith) (omega arith) (error "queue.add failed") refl refl request-lost

enqueue-crosses_users_example :
    enqueue_with_idempotency table_redis
      (table_queue ℕ)
      (job second)
      (request alice team_key)
      9
      (after alice_team key empty)
    ≡ (ok (old_job (job first)), after alice_team key empty)
enqueue-crosses_users_example =
    enqueue-crosses_users table_redis (table_queue ℕ) (job first) (job second)
      (request alice_team key) (request alice team_key) key team_key 5 9 empty
      (after alice_team key empty) refl refl j1-nonempty (omega arith) (omega arith) "alice" "team"
      "k1" refl refl refl refl (request-created alice_team key)

abbrev info : BullMqJobData ℕ
info = record {
  user_id = "alice";
  pipeline_id = "instagram";
  payload = null;
  idempotency_key = none;
  input_ref = none;
  debug = none;
}

-- an active job and one that waits
abbrev busy : Memory
busy = record {
  redis = [];
  queue = (
    true,
    ("j1", record (waiting_job info) { state = "active" }) ∷ ("j2", waiting_job info) ∷ [],
  );
}

cancel-IsStopped_example :
    let result = cancel table_redis (table_queue ℕ) (job second) 5 busy in
    (result.0 ≡ true → IsStopped table_redis (table_queue ℕ) (job second) 5 busy result.1)
    × (result.0 ≡ false → result.1 ≡ busy)
    × ((other : JobId)
        → (job second).value ≢ other.value
        → get_job table_redis (table_queue ℕ) other result.1
          ≡ get_job table_redis (table_queue ℕ) other busy)
    × ((other : JobId) (later : ℕ)
        → (job second).value ≢ other.value
        → 5 ≤ later
        → is_canceled table_redis other later result.1.redis
          ≡ is_canceled table_redis other later busy.redis)
cancel-IsStopped_example = cancel-IsStopped table_redis (table_queue ℕ) (job second) 5 busy

waits : get_job table_redis (table_queue ℕ) (job second) busy ≡ some (waiting_job info)
unfolding get_job
waits = refl

abbrev waits_state : String
waits_state = "waiting"

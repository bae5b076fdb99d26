-- ===== src/Queue/Bull.antt =====
-- What the service uses of BullMQ (not part of this repository): a queue of jobs by their ids, and
-- the data that the service stores in a job (src/infrastructure/bullmq/types.ts).
use recipe_import_from_anyth.Base.{
  ◌≡◌, Bool, true, false, String, ◌==◌, Option, none, some, List, [], ◌∷◌, if◌then◌else◌, arith,
  eq_iff,
}
use recipe_import_from_anyth.Value.{Value, undefined}

pub record BullMqJobData (N : Type 0) : Type 0 where
  pub user_id : String
  pub pipeline_id : String
  pub payload : Value N
  pub idempotency_key : Option String
  pub input_ref : Option String
  pub debug : Option Bool

-- What a job answers: `job.getState()`, `job.failedReason`, `job.progress`, `job.returnvalue`.
pub record BullMqJob (N : Type 0) : Type 0 where
  pub info : BullMqJobData N
  pub state : String
  pub failed_reason : Option String
  pub progress : Value N
  pub return_value : Value N

abbrev pub waiting_job : {N : Type 0} → BullMqJobData N → BullMqJob N
waiting_job d = record {
  info = d;
  state = "waiting";
  failed_reason = none;
  progress = undefined;
  return_value = undefined;
}

-- `??` on jobs: an id that is in the queue already keeps its job.
abbrev pub added : {N : Type 0} → Option (BullMqJob N) → BullMqJobData N → BullMqJob N
added none d = waiting_job d
added (some job) d = job

pub record Bull : Type 1 where
  pub Num : Type 0
  pub Store : Type 0
  -- queue.getJob(id)
  pub get_job : String → Store → Option (BullMqJob Num)
  -- queue.add(name, data, { jobId }), which may throw
  pub add : String → BullMqJobData Num → Store → Option Store
  -- job.remove(), which may throw
  pub remove : String → Store → Option Store
  pub get_job-add :
      (j k : String) (d : BullMqJobData Num) (s t : Store)
      → add k d s ≡ some t
      → get_job j t ≡ (if k == j then some (added (get_job k s) d) else get_job j s)
  pub get_job-remove :
      (j k : String) (s t : Store)
      → remove k s ≡ some t
      → get_job j t ≡ (if k == j then none else get_job j s)

-- A queue in memory: whether the server answers, and the jobs.
abbrev pub QueueTable : Type 0 → Type 0
QueueTable N = Bool × List (String × BullMqJob N)

module _ {N : Type 0} where
  abbrev pub find_job : String → List (String × BullMqJob N) → Option (BullMqJob N)
  find_job k [] = none
  find_job k ((j, job) ∷ t) = if j == k then some job else find_job k t

  abbrev pub without : String → List (String × BullMqJob N) → List (String × BullMqJob N)
  without k [] = []
  without k ((j, job) ∷ t) = if j == k then without k t else (j, job) ∷ without k t

  find_job-without :
      (j k : String) (t : List (String × BullMqJob N))
      → find_job j (without k t) ≡ (if k == j then none else find_job j t)
  find_job-without j k [] = ground arith
  find_job-without j k ((i, job) ∷ t) =
      ground (arith, eq_iff i k, eq_iff i j, eq_iff k j, find_job-without j k t)

  abbrev pub table_get : String → QueueTable N → Option (BullMqJob N)
  table_get k (up, t) = find_job k t

  abbrev pub table_add : String → BullMqJobData N → QueueTable N → Option (QueueTable N)
  table_add k d (true, t) = some (true, (k, added (find_job k t) d) ∷ t)
  table_add k d (false, t) = none

  abbrev pub table_remove : String → QueueTable N → Option (QueueTable N)
  table_remove k (true, t) = some (true, without k t)
  table_remove k (false, t) = none

  pub table_get-add :
      (j k : String) (d : BullMqJobData N) (s t : QueueTable N)
      → table_add k d s ≡ some t
      → table_get j t ≡ (if k == j then some (added (table_get k s) d) else table_get j s)
  table_get-add j k d (true, s) t h = ground arith
  table_get-add j k d (false, s) t h = cc

  pub table_get-remove :
      (j k : String) (s t : QueueTable N)
      → table_remove k s ≡ some t
      → table_get j t ≡ (if k == j then none else table_get j s)
  table_get-remove j k (true, s) (up, t) h = ground (arith, find_job-without j k s)
  table_get-remove j k (false, s) t h = cc

-- A queue that meets the laws.
abbrev pub table_queue : Type 0 → Bull
table_queue N = record {
  Num = N;
  Store = QueueTable N;
  get_job = table_get;
  add = table_add;
  remove = table_remove;
  get_job-add = table_get-add;
  get_job-remove = table_get-remove;
}

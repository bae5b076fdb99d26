-- ===== src/Api/Jobs/Examples.antt =====
-- The theorems of the handlers of jobs at a queue with one running job.
use recipe_import_from_anyth.Base.{◌≡◌, refl, ℕ, true, none, [], ◌∷◌, trim}
use recipe_import_from_anyth.Value.{Value, is_record, get, lookup, null, obj, field, end, str}
use recipe_import_from_anyth.Effects.{ok}
use recipe_import_from_anyth.Ids.{JobId}
use recipe_import_from_anyth.Queue.Redis.{table_redis}
use recipe_import_from_anyth.Queue.Bull.{BullMqJobData, table_queue, waiting_job}
use recipe_import_from_anyth.Queue.Manager.{World}
use recipe_import_from_anyth.Api.Jobs.{parse_job_id, cancel_job_handler, get_job_result_handler}
use recipe_import_from_anyth.Api.Jobs.Replies.{
  CancelOutcome, cancel_job_handler-CancelOutcome, ResultOutcome,
  get_job_result_handler-ResultOutcome,
}

abbrev info : BullMqJobData ℕ
info = record {
  user_id = "alice";
  pipeline_id = "instagram";
  payload = null;
  idempotency_key = none;
  input_ref = none;
  debug = none;
}

abbrev busy : World table_redis (table_queue ℕ)
busy = record {
  redis = [];
  queue = (true, ("j1", record (waiting_job info) { state = "active" }) ∷ []);
}

abbrev running : JobId
running = record { value = "j1" }

abbrev params : Value ℕ
params = obj (field "id" (str "j1") end)

parsed : parse_job_id params ≡ ok running
unfolding parse_job_id trim is_record get lookup
parsed = refl

cancel_job_handler-CancelOutcome_example :
    CancelOutcome table_redis
      (table_queue ℕ)
      params
      running
      5
      busy
      parsed
      (cancel_job_handler table_redis (table_queue ℕ) params 5 busy)
cancel_job_handler-CancelOutcome_example =
    cancel_job_handler-CancelOutcome table_redis (table_queue ℕ) params running 5 busy parsed

get_job_result_handler-ResultOutcome_example :
    ResultOutcome table_redis
      (table_queue ℕ)
      params
      running
      5
      busy
      parsed
      (get_job_result_handler table_redis (table_queue ℕ) params busy)
get_job_result_handler-ResultOutcome_example =
    get_job_result_handler-ResultOutcome table_redis (table_queue ℕ) params running 5 busy parsed

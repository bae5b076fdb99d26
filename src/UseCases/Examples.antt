-- ===== src/UseCases/Examples.antt =====
-- The theorems of the use cases at a queue with a running job and a completed one.
use recipe_import_from_anyth.Base.{◌≡◌, refl, ℕ, true, none, some, [], ◌∷◌}
use recipe_import_from_anyth.Value.{Value, is_object, null, obj, field, end, str}
use recipe_import_from_anyth.Domain.{completed}
use recipe_import_from_anyth.Progress.Stored.{parse_stored_job_progress}
use recipe_import_from_anyth.Ids.{JobId}
use recipe_import_from_anyth.Queue.Redis.{table_redis}
use recipe_import_from_anyth.Queue.Bull.{BullMqJobData, table_queue, waiting_job}
use recipe_import_from_anyth.Queue.JobState.{state_of, map_bullmq_state, JobState, get_state}
use recipe_import_from_anyth.Queue.Manager.{World}

abbrev info : BullMqJobData ℕ
info = record {
  user_id = "alice";
  pipeline_id = "instagram";
  payload = null;
  idempotency_key = none;
  input_ref = none;
  debug = none;
}

abbrev recipe : Value ℕ
recipe = obj (field "name" (str "Soup") end)

-- "j1" runs, and "j2" has completed.
abbrev busy : World table_redis (table_queue ℕ)
busy = record {
  redis = [];
  queue = (
    true,
    ("j1", record (waiting_job info) { state = "active" })
        ∷ ("j2", record (waiting_job info) { state = "completed"; return_value = recipe })
        ∷ [],
  );
}

abbrev running : JobId
running = record { value = "j1" }

abbrev done : JobId
done = record { value = "j2" }

abbrev done_state : JobState ℕ
done_state = record { status = completed; progress = none; failed_reason = none }

done_found : get_state (table_queue ℕ) done busy.queue ≡ some done_state
unfolding get_state state_of map_bullmq_state parse_stored_job_progress is_object
done_found = refl

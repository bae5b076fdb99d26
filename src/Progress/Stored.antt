-- ===== src/Progress/Stored.antt =====
-- The progress that a worker stores in its job, and that the service reads back.
use recipe_import_from_anyth.Base.{
  ◌≡◌, refl, ◌↔◌, Option, none, some, String, ◌==◌, eq_iff, arith, if◌then◌else◌, ◌>>=◌,
}
use recipe_import_from_anyth.Value.{
  Value, num, str, obj, field, end, lookup, get, is_object, as_number, as_string,
}
use recipe_import_from_anyth.Domain.{
  PipelineStatus, pending, collecting, extracting, formatting, completed, failed, canceled,
  JobProgress,
}

abbrev pub status_name : PipelineStatus → String
status_name pending = "pending"
status_name collecting = "collecting"
status_name extracting = "extracting"
status_name formatting = "formatting"
status_name completed = "completed"
status_name failed = "failed"
status_name canceled = "canceled"

-- `isPipelineStatus`, with the status that a name stands for
unfoldable pub status_of_name : String → Option PipelineStatus
status_of_name s =
    if s == "pending"
    then some pending
    else if s == "collecting"
    then some collecting
    else if s == "extracting"
    then some extracting
    else if s == "formatting"
    then some formatting
    else if s == "completed"
    then some completed
    else if s == "failed"
    then some failed
    else if s == "canceled"
    then some canceled
    else none

module _ {N : Type 0} where
  pub parse_fields : Value N → Option (JobProgress N)
  parse_fields value = do
    percent ← as_number (get "percent" value)
    name ← as_string (get "status" value)
    status ← status_of_name name
    step_index ← as_number (get "stepIndex" value)
    total_steps ← as_number (get "totalSteps" value)
    timestamp ← as_number (get "timestamp" value)
    some (record {
      percent = percent;
      status = status;
      step_index = step_index;
      total_steps = total_steps;
      timestamp = timestamp;
    })

  unfoldable pub parse_stored_job_progress : Value N → Option (JobProgress N)
  parse_stored_job_progress value = if is_object value then parse_fields value else none

  -- The plain object that `job.updateProgress` stores.
  pub stored_value : JobProgress N → Value N
  stored_value p = obj (
      field "percent" (num p.percent) (
        field "status" (str (status_name p.status)) (
          field "stepIndex" (num p.step_index)
            (field "totalSteps" (num p.total_steps) (field "timestamp" (num p.timestamp) end)))))

status_of_name-status_name :
    (status : PipelineStatus) → status_of_name (status_name status) ≡ some status
unfolding status_of_name
status_of_name-status_name pending = refl
status_of_name-status_name _ = refl

status_of_name_sound :
    (name : String) (status : PipelineStatus)
    → status_of_name name ≡ some status
    → name ≡ status_name status
unfolding status_of_name
status_of_name_sound name status h = ground (
  arith,
  eq_iff name "pending",
  eq_iff name "collecting",
  eq_iff name "extracting",
  eq_iff name "formatting",
  eq_iff name "completed",
  eq_iff name "failed",
  eq_iff name "canceled",
)

-- The properties of a value that a progress is read from.
pub record IsStored {N : Type 0} (value : Value N) (p : JobProgress N) : Type 0 where
  pub percent : get "percent" value ≡ num p.percent
  pub status : get "status" value ≡ str (status_name p.status)
  pub step_index : get "stepIndex" value ≡ num p.step_index
  pub total_steps : get "totalSteps" value ≡ num p.total_steps
  pub timestamp : get "timestamp" value ≡ num p.timestamp

module _ {N : Type 0} where
  as_number_sound : (v : Value N) (n : N) → as_number v ≡ some n → v ≡ num n
  as_number_sound v n h = ground arith

  parse_fields-IsStored :
      (value : Value N) (p : JobProgress N) → parse_fields value ≡ some p → IsStored value p
  unfolding parse_fields
  parse_fields-IsStored value p h = grind (arith, status_of_name_sound)

  parse_complete :
      (value : Value N) (p : JobProgress N)
      → IsStored value p
      → parse_stored_job_progress value ≡ some p
  unfolding parse_stored_job_progress parse_fields get is_object
  parse_complete (obj fs) p h = ground (arith, status_of_name-status_name p.status)
  parse_complete v p h = cc (h.percent)

  -- Every progress that is stored is read back as it was.
  pub parse-stored_value : (p : JobProgress N) → parse_stored_job_progress (stored_value p) ≡ some p
  unfolding parse_stored_job_progress parse_fields stored_value get lookup is_object
  parse-stored_value p = rw (status_of_name-status_name p.status)

  -- A stored value is read as a progress exactly when its five properties are those of that
  -- progress: a known status by its name, and four numbers.
  pub parse-IsStored_iff :
      (value : Value N) (p : JobProgress N)
      → (parse_stored_job_progress value ≡ some p) ↔ IsStored value p
  unfolding parse_stored_job_progress
  parse-IsStored_iff value p =
      (λ h. parse_fields-IsStored value p (ground arith), parse_complete value p)

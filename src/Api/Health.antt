-- ===== src/Api/Health.antt =====
-- src/api/routes/health: the check of Redis and of the queue. What the port's `ping` and
-- `getJobState` do is an argument.
use recipe_import_from_anyth.Base.{ℕ, Bool, true, false, ◌||◌, if◌then◌else◌}
use recipe_import_from_anyth.Effects.{Outcome, ok, thrown}
use recipe_import_from_anyth.Api.Errors.{Reply, success, failure}

pub data Check : Type 0 where
  healthy failing : Check

pub record HealthCheck : Type 0 where
  api : Check
  pub redis : Check
  pub queue : Check
  pub timestamp : ℕ

-- `promise.then(() => "ok").catch(() => "error")`
check_of : {A : Type 0} → Outcome A → Check
check_of (ok a) = healthy
check_of (thrown f) = failing

is_failing : Check → Bool
is_failing healthy = false
is_failing failing = true

-- GET /health
pub health_handler : {A B : Type 0} → Outcome A → Outcome B → ℕ → Reply HealthCheck
unfolding check_of is_failing
health_handler ping job_state now =
    if is_failing (check_of ping) || is_failing (check_of job_state)
    then failure 503 "EXTERNAL_SERVICE_ERROR"
    else success 200 (record {
      api = healthy;
      redis = check_of ping;
      queue = check_of job_state;
      timestamp = now;
    })

-- ===== src/Config/Examples.antt =====
-- Settings that differ from every default, and an environment of a server in production.
use recipe_import_from_anyth.Base.{◌≡◌, ◌≢◌, ◌↔◌, ◌⊎◌, pos, some, [], ◌∷◌}
use recipe_import_from_anyth.Base.Map.{get}
use recipe_import_from_anyth.Mistral.Settings.{Env}
use recipe_import_from_anyth.Config.{fixed, queue_options, worker_options}
use recipe_import_from_anyth.Config.Printed.{Settings, env_of, connection_of, options-env_of}
use recipe_import_from_anyth.Config.Environment.{
  passed, assert_environment, IsProvided, assert_environment-passed_iff,
}

abbrev settings : Settings
settings = record {
  host = "redis.local";
  port = 6380;
  remove_on_complete = 10;
  remove_on_fail = 20;
  attempts = 3;
  backoff_type = fixed;
  backoff_delay = 250;
  lock_duration = 30000;
  limit_max = 4;
  limit_duration = 1000;
  stalled_interval = 15000;
  max_stalled_count = 2;
  concurrency = 8;
}

options-env_of_example :
    (queue_options (env_of settings) ≡ record {
      connection = connection_of settings;
      remove_on_complete = pos 10;
      remove_on_fail = pos 20;
      attempts = pos 3;
      backoff_type = fixed;
      backoff_delay = pos 250;
    })
    × (worker_options (env_of settings) ≡ record {
      connection = connection_of settings;
      concurrency = some (pos 8);
      limiter = some (record { max = pos 4; duration = pos 1000 });
      lock_duration = pos 30000;
      remove_on_complete = pos 10;
      remove_on_fail = pos 20;
      stalled_interval = some (pos 15000);
      max_stalled_count = some (pos 2);
    })
options-env_of_example = options-env_of settings

abbrev production : Env
production name =
    get name (("NODE_ENV", "production") ∷ ("REDIS_HOST", "redis.local") ∷ ("JWT_SECRET", "s") ∷ [])

assert_environment-passed_iff_example : (assert_environment "is required" production ≡ passed) ↔ (
    (production "NODE_ENV" ≢ some "production")
    ⊎ (IsProvided "is required" production "REDIS_HOST"
        × IsProvided "is required" production "JWT_SECRET"
        × IsProvided "is required" production "JWT_ISSUER"
        × IsProvided "is required" production "JWT_AUDIENCE"))
assert_environment-passed_iff_example = assert_environment-passed_iff "is required" production

-- ===== src/Config.antt =====
-- src/infrastructure/bullmq/config.ts, constants.ts and the options that src/worker/processor.ts
-- and queue-manager.ts build of them. A number that JavaScript has as NaN is `none`.
pub mod Environment
pub mod Printed
mod Examples
use recipe_import_from_anyth.Base.{
  ℤ, pos, Bool, true, false, ◌||◌, String, ◌==◌, Option, none, some, is_empty, if◌then◌else◌,
  parse_int, ◌or◌, ◌>>=◌,
}
use recipe_import_from_anyth.Mistral.Settings.{Env, parsed_variable}

pub record RedisConnectionOptions : Type 0 where
  pub host : String
  pub port : Option ℤ
  pub password : Option String

pub record RateLimiterConfig : Type 0 where
  pub max : ℤ
  pub duration : ℤ

pub data BackoffType : Type 0 where
  exponential fixed : BackoffType

abbrev default_remove_on_complete : ℤ
default_remove_on_complete = pos 100

abbrev default_remove_on_fail : ℤ
default_remove_on_fail = pos 100

abbrev default_lock_duration_ms : ℤ
default_lock_duration_ms = pos 60000

abbrev default_retry_attempts : ℤ
default_retry_attempts = pos 2

abbrev default_retry_backoff_delay_ms : ℤ
default_retry_backoff_delay_ms = pos 5000

abbrev default_job_timeout_ms : ℤ
default_job_timeout_ms = pos 120000

-- a text that JavaScript takes for true
abbrev pub truthy : Option String → Option String
truthy none = none
truthy (some s) = if is_empty s then none else some s

module _ (env : Env) where
  get_redis_connection_options : RedisConnectionOptions
  get_redis_connection_options = record {
    host = env "REDIS_HOST" or "localhost";
    port = parse_int (env "REDIS_PORT" or "6379");
    password = truthy (env "REDIS_PASSWORD");
  }

  get_remove_on_complete_count : ℤ
  get_remove_on_complete_count =
      parsed_variable (env "BULLMQ_REMOVE_ON_COMPLETE") or default_remove_on_complete

  get_remove_on_fail_count : ℤ
  get_remove_on_fail_count = parsed_variable (env "BULLMQ_REMOVE_ON_FAIL") or default_remove_on_fail

  get_lock_duration_ms : ℤ
  get_lock_duration_ms = parsed_variable (env "BULLMQ_LOCK_DURATION_MS") or default_lock_duration_ms

  get_stalled_interval_ms : Option ℤ
  get_stalled_interval_ms = parsed_variable (env "BULLMQ_STALLED_INTERVAL_MS")

  get_max_stalled_count : Option ℤ
  get_max_stalled_count = parsed_variable (env "BULLMQ_MAX_STALLED_COUNT")

  abbrev limiter_of : Option ℤ → Option ℤ → Option RateLimiterConfig
  limiter_of (some max) (some duration) = some (record { max = max; duration = duration })
  limiter_of _ _ = none

  get_rate_limiter_config : Option RateLimiterConfig
  get_rate_limiter_config =
      limiter_of (parsed_variable (env "BULLMQ_RATE_LIMIT_MAX"))
        (parsed_variable (env "BULLMQ_RATE_LIMIT_DURATION_MS"))

  get_retry_attempts : ℤ
  get_retry_attempts = parsed_variable (env "BULLMQ_RETRY_ATTEMPTS") or default_retry_attempts

  abbrev backoff_of : Option String → BackoffType
  backoff_of none = exponential
  backoff_of (some raw) = if raw == "fixed" then fixed else exponential

  get_retry_backoff_type : BackoffType
  get_retry_backoff_type = backoff_of (env "BULLMQ_RETRY_BACKOFF_TYPE")

  get_retry_backoff_delay : ℤ
  get_retry_backoff_delay =
      parsed_variable (env "BULLMQ_RETRY_BACKOFF_DELAY_MS") or default_retry_backoff_delay_ms

  get_job_timeout_ms : ℤ
  get_job_timeout_ms = parsed_variable (env "BULLMQ_JOB_TIMEOUT_MS") or default_job_timeout_ms

-- What the constructor of `BullMQQueueManager` hands to BullMQ.
pub record QueueOptions : Type 0 where
  pub connection : RedisConnectionOptions
  pub remove_on_complete : ℤ
  pub remove_on_fail : ℤ
  pub attempts : ℤ
  pub backoff_type : BackoffType
  pub backoff_delay : ℤ

-- What `RecipeProcessor.start` hands to BullMQ's worker.
pub record WorkerOptions : Type 0 where
  pub connection : RedisConnectionOptions
  pub concurrency : Option ℤ
  pub limiter : Option RateLimiterConfig
  pub lock_duration : ℤ
  pub remove_on_complete : ℤ
  pub remove_on_fail : ℤ
  pub stalled_interval : Option ℤ
  pub max_stalled_count : Option ℤ

module _ (env : Env) where
  unfoldable pub queue_options : QueueOptions
  unfolding get_redis_connection_options get_remove_on_complete_count get_remove_on_fail_count
      get_retry_attempts get_retry_backoff_type get_retry_backoff_delay
  queue_options = record {
    connection = get_redis_connection_options env;
    remove_on_complete = get_remove_on_complete_count env;
    remove_on_fail = get_remove_on_fail_count env;
    attempts = get_retry_attempts env;
    backoff_type = get_retry_backoff_type env;
    backoff_delay = get_retry_backoff_delay env;
  }

  -- `Number.parseInt(process.env.MAX_CONCURRENT_JOBS || "2", 10)` of src/worker/index.ts
  max_concurrent_jobs : Option ℤ
  max_concurrent_jobs = parse_int (truthy (env "MAX_CONCURRENT_JOBS") or "2")

  unfoldable pub worker_options : WorkerOptions
  unfolding get_redis_connection_options get_remove_on_complete_count get_remove_on_fail_count
      get_lock_duration_ms get_rate_limiter_config get_stalled_interval_ms get_max_stalled_count
      max_concurrent_jobs
  worker_options = record {
    connection = get_redis_connection_options env;
    concurrency = max_concurrent_jobs;
    limiter = get_rate_limiter_config env;
    lock_duration = get_lock_duration_ms env;
    remove_on_complete = get_remove_on_complete_count env;
    remove_on_fail = get_remove_on_fail_count env;
    stalled_interval = get_stalled_interval_ms env;
    max_stalled_count = get_max_stalled_count env;
  }

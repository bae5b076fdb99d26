-- ===== src/Config/Printed.antt =====
-- Settings that are written into the environment are read back.
use recipe_import_from_anyth.Base.{
  ℕ, ℤ, pos, ◌≡◌, refl, String, none, some, [], ◌∷◌, parse_int, decimal, parse_int-decimal,
}
use recipe_import_from_anyth.Base.Map.{Map, get}
use recipe_import_from_anyth.Mistral.Settings.{Env, parsed_variable}
use recipe_import_from_anyth.Config.{
  RedisConnectionOptions, BackoffType, exponential, fixed, queue_options, worker_options,
  backoff_of, truthy,
}

pub record Settings : Type 0 where
  pub host : String
  pub port : ℕ
  pub remove_on_complete : ℕ
  pub remove_on_fail : ℕ
  pub attempts : ℕ
  pub backoff_type : BackoffType
  pub backoff_delay : ℕ
  pub lock_duration : ℕ
  pub limit_max : ℕ
  pub limit_duration : ℕ
  pub stalled_interval : ℕ
  pub max_stalled_count : ℕ
  pub concurrency : ℕ

abbrev pub type_name : BackoffType → String
type_name exponential = "exponential"
type_name fixed = "fixed"

-- The variables that hold the settings.
abbrev pub variables : Settings → Map String
variables s =
    ("REDIS_HOST", s.host)
    ∷ ("REDIS_PORT", decimal s.port)
    ∷ ("BULLMQ_REMOVE_ON_COMPLETE", decimal s.remove_on_complete)
    ∷ ("BULLMQ_REMOVE_ON_FAIL", decimal s.remove_on_fail)
    ∷ ("BULLMQ_RETRY_ATTEMPTS", decimal s.attempts)
    ∷ ("BULLMQ_RETRY_BACKOFF_TYPE", type_name s.backoff_type)
    ∷ ("BULLMQ_RETRY_BACKOFF_DELAY_MS", decimal s.backoff_delay)
    ∷ ("BULLMQ_LOCK_DURATION_MS", decimal s.lock_duration)
    ∷ ("BULLMQ_RATE_LIMIT_MAX", decimal s.limit_max)
    ∷ ("BULLMQ_RATE_LIMIT_DURATION_MS", decimal s.limit_duration)
    ∷ ("BULLMQ_STALLED_INTERVAL_MS", decimal s.stalled_interval)
    ∷ ("BULLMQ_MAX_STALLED_COUNT", decimal s.max_stalled_count)
    ∷ ("MAX_CONCURRENT_JOBS", decimal s.concurrency)
    ∷ []

abbrev pub env_of : Settings → Env
env_of s name = get name (variables s)

parsed-some :
    (text : String) (z : ℤ) → parse_int text ≡ some z → parsed_variable (some text) ≡ some z
unfolding parsed_variable parse_int
parsed-some String.[] z e = cc
parsed-some (String.◌∷◌ c s) z e = e

parsed_variable-decimal : (n : ℕ) → parsed_variable (some (decimal n)) ≡ some (pos n)
parsed_variable-decimal n = parsed-some (decimal n) (pos n) (parse_int-decimal n)

truthy-some : (text : String) (z : ℤ) → parse_int text ≡ some z → truthy (some text) ≡ some text
unfolding parse_int
truthy-some String.[] z e = cc
truthy-some (String.◌∷◌ c s) z e = refl

backoff_of-type_name : (env : Env) (t : BackoffType) → backoff_of env (some (type_name t)) ≡ t
backoff_of-type_name env exponential = refl
backoff_of-type_name env fixed = refl

abbrev pub connection_of : Settings → RedisConnectionOptions
connection_of s = record { host = s.host; port = some (pos s.port); password = none }

-- Settings that are written into the environment, with no password for Redis, are what the queue
-- and the worker are made with.
pub options-env_of :
    (s : Settings)
    → (queue_options (env_of s) ≡ record {
      connection = connection_of s;
      remove_on_complete = pos s.remove_on_complete;
      remove_on_fail = pos s.remove_on_fail;
      attempts = pos s.attempts;
      backoff_type = s.backoff_type;
      backoff_delay = pos s.backoff_delay;
    })
      × (worker_options (env_of s) ≡ record {
        connection = connection_of s;
        concurrency = some (pos s.concurrency);
        limiter = some (record { max = pos s.limit_max; duration = pos s.limit_duration });
        lock_duration = pos s.lock_duration;
        remove_on_complete = pos s.remove_on_complete;
        remove_on_fail = pos s.remove_on_fail;
        stalled_interval = some (pos s.stalled_interval);
        max_stalled_count = some (pos s.max_stalled_count);
      })
unfolding queue_options worker_options get
options-env_of s = (
  rw
      (
        parse_int-decimal s.port,
        parsed_variable-decimal s.remove_on_complete,
        parsed_variable-decimal s.remove_on_fail,
        parsed_variable-decimal s.attempts,
        parsed_variable-decimal s.backoff_delay,
        backoff_of-type_name (env_of s) s.backoff_type,
      )
      refl,
  rw
      (
        parse_int-decimal s.port,
        parsed_variable-decimal s.remove_on_complete,
        parsed_variable-decimal s.remove_on_fail,
        parsed_variable-decimal s.lock_duration,
        parsed_variable-decimal s.limit_max,
        parsed_variable-decimal s.limit_duration,
        parsed_variable-decimal s.stalled_interval,
        parsed_variable-decimal s.max_stalled_count,
        truthy-some (decimal s.concurrency) _ (parse_int-decimal s.concurrency),
        parse_int-decimal s.concurrency,
      )
      refl,
)

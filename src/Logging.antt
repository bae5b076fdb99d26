-- ===== src/Logging.antt =====
-- src/infrastructure/logger.ts: the console's logger, and what it redacts. The arguments are
-- `toLowerCase`, `JSON.stringify` and the environment.
pub mod Patterns
pub mod Redaction
mod Examples
use recipe_import_from_anyth.Base.{
  ℕ, ◌≡◌, not, refl, Bool, true, false, ◌||◌, String, ◌==◌, append, Option, none, some, List, [],
  ◌∷◌, leb, suc, is_empty, if◌then◌else◌, ◌or◌,
}
use recipe_import_from_anyth.Mistral.Settings.{Env}
use recipe_import_from_anyth.Config.{truthy}
use recipe_import_from_anyth.Value.{Value}
use recipe_import_from_anyth.Logging.Patterns.{redact_sensitive}
use recipe_import_from_anyth.Logging.Redaction.{redact_object}

pub record ConsoleLogger : Type 0 where
  pub level : String

-- `level || process.env.LOG_LEVEL || "info"`
new_console_logger : Env → String → ConsoleLogger
new_console_logger env level = record {
  level = if is_empty level then truthy (env "LOG_LEVEL") or "info" else level;
}

-- the logger that the service uses, whose level is the default of the parameter
console_logger : Env → ConsoleLogger
unfolding new_console_logger
console_logger env = new_console_logger env "info"

-- the four methods
pub data Method : Type 0 where
  debug info warn error : Method

abbrev method_name : Method → String
method_name debug = "debug"
method_name info = "info"
method_name warn = "warn"
method_name error = "error"

abbrev is_debug : Method → Bool
is_debug debug = true
is_debug _ = false

-- `levels.indexOf(level)` plus one, so 0 where it is none of the levels
level_index : String → ℕ
level_index level =
    if level == "debug"
    then 1
    else (if level == "info"
        then 2
        else (if level == "warn" then 3 else (if level == "error" then 4 else 0)))

should_log : ConsoleLogger → String → Bool
unfolding level_index
should_log logger level = leb (level_index logger.level) (level_index level)

module _ {N : Type 0} (lower : String → String) (stringify : Value N → String) where
  format_message : String → Option (Value N) → String
  format_message message none = redact_sensitive message
  format_message message (some context) =
      append (redact_sensitive message) (append " " (stringify (redact_object lower context)))

  -- the line that a call of `debug`, `info`, `warn` or `error` writes
  pub log_line : ConsoleLogger → Method → String → Option (Value N) → Option String
  log_line logger method message context =
      if should_log logger (method_name method) then some (format_message message context) else none

-- The level of the service's logger does not depend on the environment, so LOG_LEVEL is never read:
-- whatever it says, "debug" is not written and the other three methods are.
console_logger-level :
    (env : Env) (m : Method) → should_log (console_logger env) (method_name m) ≡ not (is_debug m)
unfolding should_log console_logger
console_logger-level env debug = refl
console_logger-level env info = refl
console_logger-level env warn = refl
console_logger-level env error = refl

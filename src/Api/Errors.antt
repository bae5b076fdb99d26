-- ===== src/Api/Errors.antt =====
-- src/api/errors: error codes with their HTTP status, and the server's error handler.
use recipe_import_from_anyth.Base.{
  ℕ, Bool, true, false, String, Option, none, some, eqb, if◌then◌else◌,
}
use recipe_import_from_anyth.Effects.{Failure, error, unrecoverable, api_error, Outcome, ok, thrown}

-- What the server answers: a status with the data of `formatSuccess` or the code of `formatError`.
pub data Reply (A : Type 0) : Type 0 where
  success : ℕ → A → Reply A
  failure : ℕ → String → Reply A

-- What Fastify hands to the error handler: a failure of a handler, or an error of its own with
-- `error.validation` and `error.statusCode`.
pub data RequestError : Type 0 where
  from_handler : Failure → RequestError
  from_fastify : Bool → Option ℕ → RequestError

by_status : {A : Type 0} → Option ℕ → Reply A
by_status none = failure 500 "INTERNAL_ERROR"
by_status (some code) =
    if eqb code 404
    then failure 404 "NOT_FOUND"
    else if eqb code 429
    then failure 429 "RATE_LIMIT_EXCEEDED"
    else failure 500 "INTERNAL_ERROR"

unfoldable pub error_handler : {A : Type 0} → RequestError → Reply A
unfolding by_status
error_handler (from_handler (api_error status code)) = failure status code
error_handler (from_handler (error message)) = failure 500 "INTERNAL_ERROR"
error_handler (from_handler (unrecoverable message)) = failure 500 "INTERNAL_ERROR"
error_handler (from_fastify true status) = failure 400 "VALIDATION_ERROR"
error_handler (from_fastify false status) = by_status status

-- A handler's result as the server sends it, with the status of success.
unfoldable pub respond : {A : Type 0} → ℕ → Outcome A → Reply A
unfolding error_handler
respond status (ok a) = success status a
respond status (thrown f) = error_handler (from_handler f)

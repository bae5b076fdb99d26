-- ===== src/Lib.antt =====
-- Verification library of the recipe import service: a server takes requests to import a recipe,
-- queues each as a job, lets clients read, cancel and follow it, and turns what a language model
-- answers into a canonical recipe.
--
-- Parts and files
--   Domain, Ids      packages/domain/src/types.ts, packages/pipeline-contracts/src/pipeline-types.ts,
--                    src/application/domain/job.types.ts and packages/domain/src/value-objects: the
--                    vocabulary of jobs and the guarded identifiers.
--   Progress         src/infrastructure/bullmq/progress-state.ts: `resolve_progress_layout`,
--                    `with_status`, `with_checkpoint`, the tracker's variable `current` as a state
--                    that `track` takes and returns, and `parseStoredJobProgress` in Progress/Stored.
--   Queue            src/infrastructure/bullmq: IdempotencyManager in Queue/Idempotency, CancellationMonitor in
--                    Queue/Cancellation, JobStateManager and `mapBullMQState` in Queue/JobState,
--                    QueueOperations and BullMQQueueManager in Queue/Manager.
--   UseCases         src/application/use-cases: create, cancel, get status and get result.
--   Api              src/api/errors, src/api/plugins/authentication.ts, and the handlers of
--                    src/api/routes over the use cases, src/api/plugins/cors.ts in Api/Cors, and
--                    `buildServer` of src/api/server.ts in Api/Routes as the function `serve`.
--   Recipe           packages/domain/src/schemas: the normalizers of recipe-jsonld.normalizers.ts
--                    that the canonical recipe uses, and the preprocessing of
--                    canonical-recipe.schema.ts as `normalize_canonical_recipe`; in Recipe/JsonLd
--                    the recipe of recipe-jsonld.schema.ts, `normalize_recipe_json_ld`, with its
--                    ingredient lines, durations and derived servings.
--   Worker           src/application/services/recipe-formatter-service.ts in Worker/Formatter, and
--                    src/worker/processor.ts: the confidence in Worker/Scoring, the reporter of the
--                    progress in Worker/Reporter, the cancellation monitor in Worker/Monitor, and
--                    `process` in Worker/Process, over the records of Worker/JobWorld; its
--                    result, packages/domain/src/entities/import-result.ts, in Worker/ImportResult.
--   Mistral          src/infrastructure/mistral-shared.ts in Mistral/Settings,
--                    mistral-ocr-client.ts in Mistral/Ocr and mistral-client.ts in
--                    Mistral/Completion; the retry loop that their three calls write out alike is
--                    `with_retries` of Mistral/Retry.
--   Pipelines        packages/pipelines: the runtimes and input schemas of images and of text.
--   Inputs           src/infrastructure/temp-input-store.ts over the files of its folder.
--   Registry         src/core/registry/pipeline-registry.ts with its two caches as a state.
--   Auth             src/infrastructure/auth/registry/auth-registry.ts: the choice of a strategy;
--                    src/infrastructure/jwt-service.ts in Auth/Jwt, and the strategies and their port
--                    in Auth/Strategies.
--   Config           src/infrastructure/bullmq/config.ts with constants.ts, the options that the
--                    queue and the worker are made with, and config-validator.ts in
--                    Config/Environment.
--   Logging          src/infrastructure/logger.ts: the levels and lines in Logging, `redactSensitive`
--                    in Logging/Patterns and `redactObject` in Logging/Redaction.
--   Fetching         src/infrastructure/fetch.ts: the hosts that may be fetched, and the timeout.
--   Identity         packages/domain-driven-design/src: equality of value objects, identifiers and
--                    entities.
--   Result           packages/domain-driven-design/src/Result.ts.
--   Events           src/infrastructure/bullmq/queue-events-bridge.ts in Events/Bridge and
--                    src/api/setup-ws.ts in Events/Socket, as a machine that takes one event of a
--                    socket at a time.
--   Value, Effects   values of unknown shape, and methods that change a state and may throw.
--   Base             names of the libraries, tests on numbers, lists, texts and maps.
-- A handler calls a use case, a use case calls the queue manager, and the queue manager works on a
-- `World`: the store of Redis and the queue of BullMQ. A worker takes a job, runs the pipeline that
-- the registry gives for it, has the formatter make a recipe of the text, scores it, and reports its
-- progress into the job; the monitor beside it asks the queue whether the job has been canceled.
--
-- Parameters
--   Redis and BullMQ are the interfaces Queue/Redis and Queue/Bull: the calls that the service
--   makes, with what their documentation says of them, and a table in memory that meets it. Redis
--   calls take the time at which they run; `add` and `remove` of BullMQ may fail. JavaScript's
--   floating point numbers are the interface `Floats` of Recipe/Numbers; `toUpperCase` and
--   `toLowerCase` are arguments.
--   The time, the ids that uuid draws, the user that the authentication finds, the answers of the
--   language model and JSON.parse are arguments too. A literal of the scores is the number of its
--   text, and the confidence of an extraction from images is a fraction where the source divides
--   floats. What a call of `fetch`, a timer or a signal brings is an input of each attempt, as are
--   the answers of a pipeline, of the OCR client and of the imports of modules. For tokens, the
--   HMAC, base64url with JSON and the comparison of `exp` are the record `Codec`. Texts are lists of
--   code points, and `trim` removes the white space of ECMAScript. Where a recipe is normalized
--   twice, the laws `FloatLaws` of Recipe/Numbers/Counts say what holds of all JavaScript numbers: a
--   rounded number is whole and keeps its side of 0; that the recipe's numbers are finite is a
--   hypothesis. The `join` of a folder and a name is an argument, and so is when the parts of a
--   response come; the redirects that the platform follows are its own. `===`, dayjs and the value
--   `undefined` are the record `Comparison` of Identity. A processor that runs a job has the queue
--   that `start` gave it.
--
-- Every function is total by structural recursion. The formatter's loop recurs on the attempts that
-- are left, two after the first, and the loop of the clients on all of them; only the digits of a
-- number are written with fuel, of which the number itself is enough. Numbers that the service
-- counts with are natural numbers; a subtraction that could go below 0 is commented where it stands.
-- The zod schemas check the types that the preprocessing functions return; that these checks pass
-- is assumed, so an overflow of a mixed fraction to infinity is not covered.
--
-- Not modelled: what Fastify does with a request before the hook (the counting of the rate limit,
-- and the parsing of a body but for its failure), the security headers, and the start of the
-- processes. The snapshot that is sent after a subscription changes no state and is left out.
pub mod Api
pub mod Auth
pub mod Base
pub mod Config
pub mod Domain
pub mod Effects
pub mod Events
pub mod Fetching
pub mod Identity
pub mod Ids
pub mod Inputs
pub mod Logging
pub mod Mistral
pub mod Pipelines
pub mod Progress
pub mod Queue
pub mod Recipe
pub mod Registry
pub mod Result
pub mod UseCases
pub mod Value
pub mod Worker

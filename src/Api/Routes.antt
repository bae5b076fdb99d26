-- ===== src/Api/Routes.antt =====
-- src/api/server.ts: `buildServer` with its routes, the hook before the handlers, and the key of
-- the rate limit. A request comes with the route that Fastify finds for it, and its body as parsed.
pub mod Access
pub mod Replay
mod Examples
use recipe_import_from_anyth.Base.{
  ℕ, ◌==◌, Bool, true, false, String, Option, none, some, List, [], ◌∷◌, is_empty, trim, append,
  if◌then◌else◌, parse_int, ℤ, ◌or◌,
}
use recipe_import_from_anyth.Base.Map.{Map, get}
use recipe_import_from_anyth.Value.{Value}
use recipe_import_from_anyth.Effects.{Outcome, ok, thrown}
use recipe_import_from_anyth.Ids.{JobId, UserId}
use recipe_import_from_anyth.Queue.Redis.{Redis}
use recipe_import_from_anyth.Queue.Bull.{Bull}
use recipe_import_from_anyth.UseCases.{
  CreateImportJobResult, GetJobResultResult, GetJobStatusResult,
}
use recipe_import_from_anyth.Inputs.{Folder}
use recipe_import_from_anyth.Registry.{Modules, PipelineConfig}
use recipe_import_from_anyth.Mistral.Settings.{Env}
use recipe_import_from_anyth.Api.Errors.{
  Reply, success, failure, from_handler, from_fastify, error_handler,
}
use recipe_import_from_anyth.Api.Authentication.{
  HeaderValue, text, texts, missing, join_values, auth_pre_handler,
}
use recipe_import_from_anyth.Api.Health.{HealthCheck, health_handler}
use recipe_import_from_anyth.Api.Import.{Server, inputs_handler, import_handler}
use recipe_import_from_anyth.Api.Jobs.{
  CancelReply, cancel_job_handler, get_job_result_handler, get_job_status_handler,
}

pub record RateLimitConfig : Type 0 where
  pub max : Option ℤ
  pub time_window : Option ℤ

pub get_rate_limit_config : Env → RateLimitConfig
get_rate_limit_config env = record {
  max = parse_int (env "API_RATE_LIMIT_MAX" or "100");
  time_window = parse_int (env "API_RATE_LIMIT_WINDOW_MS" or "60000");
}

pub get_body_limit : Env → Option ℤ
get_body_limit env = parse_int (env "MAX_PAYLOAD_SIZE" or "10485760")

-- The header `x-user-id`, where it has a text that is not blank or any texts, or the address.
pub key_generator : HeaderValue → String → String
key_generator (text value) ip = if is_empty (trim value) then ip else value
key_generator (texts []) ip = ip
key_generator (texts (value ∷ values)) ip = join_values value values
key_generator missing ip = ip

-- The routes, with the body of a POST as parsed and the parameters of a path, and what else becomes
-- of a request.
pub data Route (N : Type 0) : Type 0 where
  health : Route N
  inputs : Option (List ℕ) → Route N
  import_job : Value N → Route N
  job_status job_result cancel : Value N → Route N
  -- a handshake on /ws, whose messages are authenticated one by one
  websocket : Route N
  -- Fastify's own error before the hook, as for a body that is malformed or too long
  unreadable : Bool → Option ℕ → Route N
  unknown : Route N

-- `request.headers[name]`
unfoldable pub header : String → List (String × HeaderValue) → HeaderValue
header name [] = missing
header name ((key, value) ∷ headers) = if key == name then value else header name headers

-- the routes that have the hook
unfoldable pub is_protected : {N : Type 0} → Route N → Bool
is_protected health = false
is_protected websocket = false
is_protected (unreadable validation status) = false
is_protected unknown = false
is_protected _ = true

-- What a reply of success carries.
pub data Payload (N : Type 0) : Type 0 where
  checked : HealthCheck → Payload N
  stored : String → Payload N
  created : CreateImportJobResult → Payload N
  status_of : GetJobStatusResult N → Payload N
  result_of : GetJobResultResult N → Payload N
  stopped : CancelReply → Payload N
  -- a WebSocket, with which Events.Socket goes on
  opened : Payload N

abbrev pub sent : {A B : Type 0} → ℕ → (A → B) → Outcome A → Reply B
sent status wrap (ok a) = success status (wrap a)
sent status wrap (thrown f) = error_handler (from_handler f)

module _ (R : Redis) (Q : Bull) (M : Modules Q.Num) (configs : List PipelineConfig) where
  -- the folder of temporary inputs, the registry and the queue
  pub record Service : Type 0 where
    pub folder : Folder
    pub server : Server R Q M configs

  -- What a request meets outside of the service: the answers of Redis to `ping` and to the health
  -- check's `getJobState`, the path of a name
  -- in the folder of inputs, and the ids that are drawn.
  pub record Surroundings : Type 0 where
    pub ping : Outcome (Unit {0})
    pub job_state : Outcome (Unit {0})
    pub base : String → String
    pub uuid : String
    pub fresh : JobId

  module _ (e : Surroundings) where
    -- the route's handler, with the user that the hook has set
    unfoldable pub handle :
        Route Q.Num
        → List (String × HeaderValue)
        → Option UserId
        → ℕ
        → Service
        → Reply (Payload Q.Num) × Service
    unfolding header
    handle health headers user now s = (
      elim (health_handler e.ping e.job_state now) [
        | success code h ↦ success code (checked h)
        | failure code name ↦ failure code name
      ],
      s,
    )
    handle (inputs body) headers user now s =
        let (reply, folder) = inputs_handler e.base e.uuid body now s.folder in
        (sent 201 stored reply, record s { folder = folder })
    handle (import_job body) headers user now s =
        let (reply, server) =
          import_handler R Q M configs e.fresh body (header "idempotency-key" headers) user now
            s.server in
        (sent 202 created reply, record s { server = server })
    handle (job_status params) headers user now s =
        (sent 200 status_of (get_job_status_handler R Q params s.server.world), s)
    handle (job_result params) headers user now s =
        (sent 200 result_of (get_job_result_handler R Q params s.server.world), s)
    handle (cancel params) headers user now s =
        let (reply, world) = cancel_job_handler R Q params now s.server.world in
        (sent 200 stopped reply, record s { server = record s.server { world = world } })
    handle websocket headers user now s = (success 101 opened, s)
    handle (unreadable validation status) headers user now s =
        (error_handler (from_fastify validation status), s)
    handle unknown headers user now s = (failure 404 "NOT_FOUND", s)

    unfoldable pub after_hook :
        Outcome UserId
        → Route Q.Num
        → List (String × HeaderValue)
        → ℕ
        → Service
        → Reply (Payload Q.Num) × Service
    after_hook (thrown f) route headers now s = (error_handler (from_handler f), s)
    after_hook (ok user) route headers now s = handle route headers (some user) now s

    -- A request that the rate limit and the plugin for CORS have let through.
    unfoldable pub serve :
        (Map String → Outcome UserId)
        → Route Q.Num
        → List (String × HeaderValue)
        → ℕ
        → Service
        → Reply (Payload Q.Num) × Service
    unfolding is_protected after_hook
    serve authenticate route headers now s =
        let served = after_hook (auth_pre_handler authenticate headers) route headers now s in
        let open_to_all = handle route headers none now s in
        if is_protected route then served else open_to_all

-- ===== src/Api/Import.antt =====
-- src/api/routes/import and src/api/routes/inputs: the handlers that upload a temporary input and
-- that create a job.
pub mod Stateless
pub mod Replay
pub mod Examples
use recipe_import_from_anyth.Base.{
  ℕ, ◌≡◌, refl, String, ◌==◌, Option, none, some, List, [], ◌∷◌, is_empty, trim, if◌then◌else◌,
  Bool-cases, inl, inr, eq_refl,
}
use recipe_import_from_anyth.Effects.{Exec, Outcome, ok, thrown, api_error}
use recipe_import_from_anyth.Ids.{JobId, UserId}
use recipe_import_from_anyth.Value.{
  Value, undefined, str, obj, field, end, get, is_record, set_field,
}
use recipe_import_from_anyth.Queue.Redis.{Redis}
use recipe_import_from_anyth.Queue.Bull.{Bull}
use recipe_import_from_anyth.Queue.Manager.{World}
use recipe_import_from_anyth.UseCases.{
  CreateImportJobInput, CreateImportJobResult, create_import_job,
}
use recipe_import_from_anyth.Inputs.{Folder, save}
use recipe_import_from_anyth.Registry.{
  Modules, Registry, PipelineConfig, PipelineMeta, get_config, get_meta,
}
use recipe_import_from_anyth.Api.Authentication.{HeaderValue, text, texts, missing, require_user_id}

-- POST /inputs: the body's bytes, where it is a Buffer, and the reply's `inputRef`
pub inputs_handler : (String → String) → String → Option (List ℕ) → ℕ → Exec Folder String
inputs_handler base uuid none now folder = (thrown (api_error 400 "INVALID_INPUT"), folder)
inputs_handler base uuid (some []) now folder = (thrown (api_error 400 "INVALID_INPUT"), folder)
inputs_handler base uuid (some (byte ∷ bytes)) now folder = save base uuid (byte ∷ bytes) now folder

pub record ImportBody (N : Type 0) : Type 0 where
  pub pipeline_id : String
  pub payload : Value N
  pub input_ref : Option String

abbrev filled_trim : String → Option (Option String)
filled_trim s = let t = trim s in if is_empty t then none else some (some t)

module _ {N : Type 0} where
  -- `z.enum(pipelineIds)`
  one_of : List PipelineConfig → Value N → Option String
  one_of [] value = none
  one_of (config ∷ configs) (str s) =
      let rest = one_of configs (str s) in if config.pipeline_id == s then some s else rest
  one_of (config ∷ configs) _ = none

  -- `z.string().trim().min(1).optional()`
  optional_ref : Value N → Option (Option String)
  optional_ref undefined = some none
  optional_ref (str s) = filled_trim s
  optional_ref _ = none

  import_body_of : Option String → Value N → Option (Option String) → Option (ImportBody N)
  import_body_of (some id) payload (some ref) =
      some (record { pipeline_id = id; payload = payload; input_ref = ref })
  import_body_of _ payload _ = none

  -- `importBodySchema.safeParse(body)`
  pub parse_import_body : List PipelineConfig → Value N → Option (ImportBody N)
  parse_import_body configs body =
      if is_record body
      then import_body_of (one_of configs (get "pipelineId" body)) (get "payload" body)
          (optional_ref (get "inputRef" body))
      else none

  pub merge_input_ref : Value N → Option String → Outcome (Value N)
  merge_input_ref payload none = ok payload
  merge_input_ref undefined (some ref) = ok (obj (field "inputRef" (str ref) end))
  merge_input_ref (obj fs) (some ref) = ok (obj (set_field "inputRef" (str ref) fs))
  merge_input_ref _ (some ref) = thrown (api_error 400 "INVALID_INPUT")

-- The first value of the header `idempotency-key`.
pub resolve_idempotency_key : HeaderValue → Option String
resolve_idempotency_key (text key) = some key
resolve_idempotency_key (texts []) = none
resolve_idempotency_key (texts (key ∷ keys)) = some key
resolve_idempotency_key missing = none

module _ (R : Redis) (Q : Bull) (M : Modules Q.Num) (configs : List PipelineConfig) where
  -- The server's state: the registry's caches, and the queue with its Redis.
  pub record Server : Type 0 where
    pub registry : Registry M configs
    pub world : World R Q

module _ (R : Redis) (Q : Bull) (M : Modules Q.Num) (configs : List PipelineConfig)
    (fresh : JobId) where
  create_for :
      CreateImportJobInput Q.Num
      → Outcome UserId
      → ℕ
      → Exec (Server R Q M configs) CreateImportJobResult
  create_for input (thrown f) now s = (thrown f, s)
  create_for input (ok user) now s =
      let (result, world) = create_import_job R Q fresh user input now s.world in
      (result, record s { world = world })

  with_payload :
      ImportBody Q.Num
      → HeaderValue
      → Option UserId
      → Option (Value Q.Num)
      → ℕ
      → Exec (Server R Q M configs) CreateImportJobResult
  with_payload body key user none now s = (thrown (api_error 400 "INVALID_INPUT"), s)
  with_payload body key user (some payload) now s =
      create_for
        (record {
          pipeline_id = body.pipeline_id;
          payload = payload;
          input_ref = body.input_ref;
          idempotency_key = resolve_idempotency_key key;
          debug = none;
        })
        (require_user_id user) now s

  with_meta :
      ImportBody Q.Num
      → HeaderValue
      → Option UserId
      → Value Q.Num
      → Outcome (PipelineMeta Q.Num)
      → ℕ
      → Exec (Server R Q M configs) CreateImportJobResult
  with_meta body key user merged (thrown f) now s = (thrown f, s)
  with_meta body key user merged (ok meta) now s =
      with_payload body key user (meta.input_schema merged) now s

  with_merged :
      ImportBody Q.Num
      → HeaderValue
      → Option UserId
      → Outcome (Value Q.Num)
      → ℕ
      → Exec (Server R Q M configs) CreateImportJobResult
  with_merged body key user (thrown f) now s = (thrown f, s)
  with_merged body key user (ok merged) now s =
      let (meta, registry) = get_meta M configs body.pipeline_id s.registry in
      with_meta body key user merged meta now (record s { registry = registry })

  with_config :
      ImportBody Q.Num
      → HeaderValue
      → Option UserId
      → Option PipelineConfig
      → ℕ
      → Exec (Server R Q M configs) CreateImportJobResult
  with_config body key user none now s = (thrown (api_error 404 "INVALID_INPUT"), s)
  with_config body key user (some config) now s =
      with_merged body key user (merge_input_ref body.payload body.input_ref) now s

  with_body :
      Option (ImportBody Q.Num)
      → HeaderValue
      → Option UserId
      → ℕ
      → Exec (Server R Q M configs) CreateImportJobResult
  with_body none key user now s = (thrown (api_error 400 "INVALID_INPUT"), s)
  with_body (some body) key user now s =
      with_config body key user (get_config configs body.pipeline_id) now s

  -- POST /import: the request's body, its header `idempotency-key` and the user that the hook set;
  -- a success is a 202 reply.
  pub import_handler :
      Value Q.Num
      → HeaderValue
      → Option UserId
      → ℕ
      → Exec (Server R Q M configs) CreateImportJobResult
  import_handler body key user now s = with_body (parse_import_body configs body) key user now s

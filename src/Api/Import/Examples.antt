-- ===== src/Api/Import/Examples.antt =====
-- A request to import images that is sent twice, by a user with an idempotency key.
use recipe_import_from_anyth.Base.{◌≡◌, refl, ◌∙◌, ℕ, true, false, some, [], trim, is_space}
use recipe_import_from_anyth.Value.{Value, obj, field, end, str, get, lookup, is_record}
use recipe_import_from_anyth.Effects.{Outcome, ok}
use recipe_import_from_anyth.Ids.{JobId, UserId, new_idempotency_key}
use recipe_import_from_anyth.Queue.Redis.{table_redis}
use recipe_import_from_anyth.Queue.Bull.{table_queue}
use recipe_import_from_anyth.Queue.Idempotency.{check, check_and_set}
use recipe_import_from_anyth.Queue.Manager.{enqueue_with_idempotency}
use recipe_import_from_anyth.UseCases.{CreateImportJobResult, idempotency_key_of, create_import_job}
use recipe_import_from_anyth.Registry.{pipeline_configs, get_config, load_meta}
use recipe_import_from_anyth.Registry.Examples.{modules, empty_registry, empty_registry-IsRegistry}
use recipe_import_from_anyth.Api.Authentication.{HeaderValue, text, require_user_id}
use recipe_import_from_anyth.Api.Import.{
  Server, resolve_idempotency_key, import_handler, parse_import_body, import_body_of, one_of,
  optional_ref, merge_input_ref,
}
use recipe_import_from_anyth.Api.Import.Stateless.{input_of, create_asked, import_handler-Answers}

abbrev pub alice : UserId
alice = record { value = "alice" }

abbrev pub first_id : JobId
first_id = record { value = "j1" }

abbrev pub second_id : JobId
second_id = record { value = "j2" }

abbrev pub body : Value ℕ
body = obj (field "pipelineId" (str "images") (field "payload" (obj end) end))

abbrev pub header : HeaderValue
header = text "k1"

abbrev pub idle : Server table_redis (table_queue ℕ) modules pipeline_configs
idle = record { registry = empty_registry; world = record { redis = []; queue = (true, []) } }

abbrev pub asked :
    JobId
    → ℕ
    → Server table_redis (table_queue ℕ) modules pipeline_configs
    → Outcome CreateImportJobResult × Server table_redis (table_queue ℕ) modules pipeline_configs
asked id now s =
    import_handler table_redis (table_queue ℕ) modules pipeline_configs id body header (some alice)
      now s

first_result :
    (create_asked table_redis
      (table_queue ℕ)
      modules
      pipeline_configs
      first_id
      (input_of modules pipeline_configs header body)
      (require_user_id (some alice))
      5
      idle.world).0
    ≡ ok (record { job_id = first_id; is_duplicate = false })
unfolding create_asked input_of parse_import_body import_body_of one_of optional_ref merge_input_ref
    get_config load_meta get lookup is_record idempotency_key_of new_idempotency_key
    create_import_job require_user_id resolve_idempotency_key enqueue_with_idempotency check_and_set
    check trim is_space
first_result = refl

pub first_created :
    asked first_id 5 idle
    ≡ (ok (record { job_id = first_id; is_duplicate = false }), (asked first_id 5 idle).1)
first_created =
    let done =
      import_handler-Answers table_redis (table_queue ℕ) modules pipeline_configs first_id header
        (some alice) 5 body idle empty_registry-IsRegistry in
    λ i. ((done.outcome ∙ first_result) i, (asked first_id 5 idle).1)

pub header-key :
    idempotency_key_of (resolve_idempotency_key header) ≡ ok (some (record { value = "k1" }))
unfolding idempotency_key_of resolve_idempotency_key new_idempotency_key trim is_space
header-key = refl

-- ===== src/Api/Routes/Examples.antt =====
-- Requests to a service with an empty queue.
use recipe_import_from_anyth.Base.{
  ℕ, ◌≡◌, refl, true, false, String, some, List, [], ◌∷◌, arith, eq_iff, append,
}
use recipe_import_from_anyth.Base.Map.{Map}
use recipe_import_from_anyth.Value.{null}
use recipe_import_from_anyth.Effects.{Outcome, ok, thrown, error}
use recipe_import_from_anyth.Ids.{JobId, UserId}
use recipe_import_from_anyth.UseCases.{idempotency_key_of}
use recipe_import_from_anyth.Api.Errors.{success}
use recipe_import_from_anyth.Queue.Redis.{table_redis}
use recipe_import_from_anyth.Queue.Bull.{table_queue}
use recipe_import_from_anyth.Registry.{pipeline_configs}
use recipe_import_from_anyth.Registry.Examples.{modules, empty_registry-IsRegistry}
use recipe_import_from_anyth.Api.Authentication.{HeaderValue, text, auth_pre_handler}
use recipe_import_from_anyth.Api.Routes.{
  Service, Surroundings, import_job, inputs, created, header, sent, handle, after_hook, serve,
}
use recipe_import_from_anyth.Api.Import.{Server, resolve_idempotency_key}
use recipe_import_from_anyth.Api.Import.Examples.{
  alice, first_id, second_id, body, asked, first_created, header-key,
}
use recipe_import_from_anyth.Api.Import.Examples
use recipe_import_from_anyth.Api.Routes.Replay.{serve-again}
use recipe_import_from_anyth.Api.Routes.Access.{IsRefusal, Keeps, serve-IsRefusal, serve-Keeps}

abbrev with_server :
    Server table_redis (table_queue ℕ) modules pipeline_configs
    → Service table_redis (table_queue ℕ) modules pipeline_configs
with_server server = record { folder = some []; server = server }

abbrev idle : Service table_redis (table_queue ℕ) modules pipeline_configs
idle = with_server Examples.idle

abbrev surroundings : JobId → Surroundings table_redis (table_queue ℕ) modules pipeline_configs
surroundings id = record {
  ping = ok tt;
  job_state = ok tt;
  base = append "/tmp/";
  uuid = "u1";
  fresh = id;
}

abbrev refuse : Map String → Outcome UserId
refuse headers = thrown (error "No strategy")

abbrev accept : Map String → Outcome UserId
accept headers = ok alice

serve-IsRefusal_example :
    IsRefusal table_redis
      (table_queue ℕ)
      modules
      pipeline_configs
      (surroundings first_id)
      (import_job null)
      (("x-user-id", text "alice") ∷ [])
      5
      idle
      (serve table_redis
        (table_queue ℕ)
        modules
        pipeline_configs
        (surroundings first_id)
        refuse
        (import_job null)
        (("x-user-id", text "alice") ∷ [])
        5
        idle).0
    × ((serve table_redis
          (table_queue ℕ)
          modules
          pipeline_configs
          (surroundings first_id)
          refuse
          (import_job null)
          (("x-user-id", text "alice") ∷ [])
          5
          idle).1
        ≡ idle)
serve-IsRefusal_example =
    serve-IsRefusal table_redis (table_queue ℕ) modules pipeline_configs (surroundings first_id)
      refuse (("x-user-id", text "alice") ∷ []) 5 idle (import_job null) (error "No strategy") refl

serve-Keeps_example :
    Keeps table_redis
      (table_queue ℕ)
      modules
      pipeline_configs
      (inputs (some (7 ∷ [])))
      idle
      (serve table_redis
        (table_queue ℕ)
        modules
        pipeline_configs
        (surroundings first_id)
        accept
        (inputs (some (7 ∷ [])))
        []
        5
        idle).1
serve-Keeps_example =
    serve-Keeps table_redis (table_queue ℕ) modules pipeline_configs (surroundings first_id) [] 5
      idle accept (inputs (some (7 ∷ [])))

abbrev key_headers : List (String × HeaderValue)
key_headers = ("idempotency-key", text "k1") ∷ []

first_served :
    serve table_redis
      (table_queue ℕ)
      modules
      pipeline_configs
      (surroundings first_id)
      accept
      (import_job body)
      key_headers
      5
      idle
    ≡ (
      success 202 (created (record { job_id = first_id; is_duplicate = false })),
      with_server (asked first_id 5 Examples.idle).1,
    )
unfolding serve auth_pre_handler after_hook handle header
first_served =
    λ i. (sent 202 created (first_created i).0, with_server (asked first_id 5 Examples.idle).1)

served_key :
    idempotency_key_of (resolve_idempotency_key (header "idempotency-key" key_headers))
    ≡ ok (some (record { value = "k1" }))
unfolding header
served_key = header-key

serve-again_example :
    ((serve table_redis
        (table_queue ℕ)
        modules
        pipeline_configs
        (surroundings second_id)
        accept
        (import_job body)
        key_headers
        9
        (with_server (asked first_id 5 Examples.idle).1)).0
      ≡ success 202 (created (record { job_id = first_id; is_duplicate = true })))
    × ((serve table_redis
          (table_queue ℕ)
          modules
          pipeline_configs
          (surroundings second_id)
          accept
          (import_job body)
          key_headers
          9
          (with_server (asked first_id 5 Examples.idle).1)).1.folder
        ≡ some [])
    × ((serve table_redis
          (table_queue ℕ)
          modules
          pipeline_configs
          (surroundings second_id)
          accept
          (import_job body)
          key_headers
          9
          (with_server (asked first_id 5 Examples.idle).1)).1.server.world
        ≡ (asked first_id 5 Examples.idle).1.world)
serve-again_example =
    serve-again table_redis (table_queue ℕ) modules pipeline_configs (surroundings first_id)
      (surroundings second_id) accept key_headers body alice (record { value = "k1" }) 5 9 idle
      (with_server (asked first_id 5 Examples.idle).1)
      (record { job_id = first_id; is_duplicate = false }) refl served_key
      (ground (arith, eq_iff "j1" "")) (omega arith) (omega arith) empty_registry-IsRegistry
      first_served refl

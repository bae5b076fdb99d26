-- ===== src/Api/Import/Stateless.antt =====
-- `POST /import` without the registry's cache.
use recipe_import_from_anyth.Base.{ℕ, ◌≡◌, refl, subst, Option, none, some, List}
use recipe_import_from_anyth.Effects.{Exec, Outcome, ok, thrown, api_error}
use recipe_import_from_anyth.Ids.{JobId, UserId}
use recipe_import_from_anyth.Value.{Value}
use recipe_import_from_anyth.Queue.Redis.{Redis}
use recipe_import_from_anyth.Queue.Bull.{Bull}
use recipe_import_from_anyth.Queue.Manager.{World}
use recipe_import_from_anyth.UseCases.{
  CreateImportJobInput, CreateImportJobResult, create_import_job,
}
use recipe_import_from_anyth.Registry.{
  Modules, PipelineConfig, PipelineMeta, IsRegistry, get_config, get_meta, load_meta, get_meta-load,
}
use recipe_import_from_anyth.Api.Authentication.{HeaderValue, require_user_id}
use recipe_import_from_anyth.Api.Import.{
  ImportBody, parse_import_body, merge_input_ref, resolve_idempotency_key, Server, create_for,
  with_payload, with_meta, with_merged, with_config, with_body, import_handler,
}

module _ {N : Type 0} (M : Modules N) (configs : List PipelineConfig) (key : HeaderValue) where
  -- What is asked of the use case for a request's body, or the error that the body is answered
  -- with, where each pipeline's meta is loaded anew.
  payload_input : ImportBody N → Option (Value N) → Outcome (CreateImportJobInput N)
  payload_input body none = thrown (api_error 400 "INVALID_INPUT")
  payload_input body (some payload) = ok (record {
    pipeline_id = body.pipeline_id;
    payload = payload;
    input_ref = body.input_ref;
    idempotency_key = resolve_idempotency_key key;
    debug = none;
  })

  meta_input : ImportBody N → Value N → Outcome (PipelineMeta N) → Outcome (CreateImportJobInput N)
  unfolding payload_input
  meta_input body merged (thrown f) = thrown f
  meta_input body merged (ok meta) = payload_input body (meta.input_schema merged)

  merged_input : ImportBody N → Outcome (Value N) → Outcome (CreateImportJobInput N)
  unfolding meta_input
  merged_input body (thrown f) = thrown f
  merged_input body (ok merged) = meta_input body merged (load_meta M configs body.pipeline_id)

  config_input : ImportBody N → Option PipelineConfig → Outcome (CreateImportJobInput N)
  unfolding merged_input
  config_input body none = thrown (api_error 404 "INVALID_INPUT")
  config_input body (some config) = merged_input body (merge_input_ref body.payload body.input_ref)

  body_input : Option (ImportBody N) → Outcome (CreateImportJobInput N)
  unfolding config_input
  body_input none = thrown (api_error 400 "INVALID_INPUT")
  body_input (some body) = config_input body (get_config configs body.pipeline_id)

  unfoldable pub input_of : Value N → Outcome (CreateImportJobInput N)
  unfolding body_input
  input_of body = body_input (parse_import_body configs body)

  -- an input that there is has the key of the header
  abbrev pub HasKey : Outcome (CreateImportJobInput N) → Type 0
  HasKey (thrown f) = Unit
  HasKey (ok input) = input.idempotency_key ≡ resolve_idempotency_key key

  payload_input-HasKey :
      (body : ImportBody N) (payload : Option (Value N)) → HasKey (payload_input body payload)
  unfolding payload_input
  payload_input-HasKey body none = tt
  payload_input-HasKey body (some payload) = refl

  meta_input-HasKey :
      (body : ImportBody N) (merged : Value N) (meta : Outcome (PipelineMeta N))
      → HasKey (meta_input body merged meta)
  unfolding meta_input
  meta_input-HasKey body merged (thrown f) = tt
  meta_input-HasKey body merged (ok meta) = payload_input-HasKey body (meta.input_schema merged)

  merged_input-HasKey :
      (body : ImportBody N) (merged : Outcome (Value N)) → HasKey (merged_input body merged)
  unfolding merged_input
  merged_input-HasKey body (thrown f) = tt
  merged_input-HasKey body (ok merged) =
      meta_input-HasKey body merged (load_meta M configs body.pipeline_id)

  config_input-HasKey :
      (body : ImportBody N) (config : Option PipelineConfig) → HasKey (config_input body config)
  unfolding config_input
  config_input-HasKey body none = tt
  config_input-HasKey body (some config) =
      merged_input-HasKey body (merge_input_ref body.payload body.input_ref)

  body_input-HasKey : (body : Option (ImportBody N)) → HasKey (body_input body)
  unfolding body_input
  body_input-HasKey none = tt
  body_input-HasKey (some body) = config_input-HasKey body (get_config configs body.pipeline_id)

  pub input_of-HasKey : (body : Value N) → HasKey (input_of body)
  unfolding input_of
  input_of-HasKey body = body_input-HasKey (parse_import_body configs body)

module _ (R : Redis) (Q : Bull) (M : Modules Q.Num) (configs : List PipelineConfig)
    (fresh : JobId) where
  -- The use case for the user, where the input and the user are there.
  unfoldable pub create_asked :
      Outcome (CreateImportJobInput Q.Num)
      → Outcome UserId
      → ℕ
      → Exec (World R Q) CreateImportJobResult
  create_asked (thrown f) user now w = (thrown f, w)
  create_asked (ok input) (thrown f) now w = (thrown f, w)
  create_asked (ok input) (ok user) now w = create_import_job R Q fresh user input now w

  module _ (key : HeaderValue) (user : Option UserId) (now : ℕ) where
    -- The handler's outcome is what is asked of the use case, and the caches hold what is loaded.
    pub record Answers (asked : Outcome (CreateImportJobInput Q.Num)) (w : World R Q)
        (r : Outcome CreateImportJobResult × Server R Q M configs) : Type 0 where
      pub outcome : r.0 ≡ (create_asked asked (require_user_id user) now w).0
      pub world : r.1.world ≡ (create_asked asked (require_user_id user) now w).1
      pub cached : IsRegistry M configs r.1.registry

    create_for-Answers :
        (input : CreateImportJobInput Q.Num) (s : Server R Q M configs)
        → IsRegistry M configs s.registry
        → (o : Outcome UserId) → require_user_id user ≡ o
        → Answers (ok input) s.world (create_for R Q M configs fresh input o now s)
    unfolding create_for create_asked
    create_for-Answers input s h (thrown f) e = record {
      outcome = rw e refl;
      world = rw e refl;
      cached = h;
    }
    create_for-Answers input s h (ok u) e = record {
      outcome = rw e refl;
      world = rw e refl;
      cached = h;
    }

    with_payload-Answers :
        (body : ImportBody Q.Num) (payload : Option (Value Q.Num)) (s : Server R Q M configs)
        → IsRegistry M configs s.registry
        → Answers
            (payload_input M configs key body payload)
            s.world
            (with_payload R Q M configs fresh body key user payload now s)
    unfolding with_payload create_asked payload_input
    with_payload-Answers body none s h = record { outcome = refl; world = refl; cached = h }
    with_payload-Answers body (some payload) s h = create_for-Answers _ s h _ refl

    with_meta-Answers :
        (body : ImportBody Q.Num) (merged : Value Q.Num) (meta : Outcome (PipelineMeta Q.Num))
        (s : Server R Q M configs)
        → IsRegistry M configs s.registry
        → Answers
            (meta_input M configs key body merged meta)
            s.world
            (with_meta R Q M configs fresh body key user merged meta now s)
    unfolding with_meta create_asked meta_input
    with_meta-Answers body merged (thrown f) s h = record {
      outcome = refl;
      world = refl;
      cached = h;
    }
    with_meta-Answers body merged (ok meta) s h =
        with_payload-Answers body (meta.input_schema merged) s h

    with_merged-Answers :
        (body : ImportBody Q.Num) (merged : Outcome (Value Q.Num)) (s : Server R Q M configs)
        → IsRegistry M configs s.registry
        → Answers
            (merged_input M configs key body merged)
            s.world
            (with_merged R Q M configs fresh body key user merged now s)
    unfolding with_merged create_asked merged_input
    with_merged-Answers body (thrown f) s h = record { outcome = refl; world = refl; cached = h }
    with_merged-Answers body (ok merged) s h =
        let (loaded, kept, runtime, still) =
          get_meta-load M configs body.pipeline_id s.registry h in
        let (meta, registry) = get_meta M configs body.pipeline_id s.registry in
        subst
          (λ m. Answers (meta_input M configs key body merged m) s.world (
            with_meta R Q M configs fresh body key user merged meta now
              (record s { registry = registry })))
          loaded (with_meta-Answers body merged meta (record s { registry = registry }) kept)

    with_config-Answers :
        (body : ImportBody Q.Num) (config : Option PipelineConfig) (s : Server R Q M configs)
        → IsRegistry M configs s.registry
        → Answers
            (config_input M configs key body config)
            s.world
            (with_config R Q M configs fresh body key user config now s)
    unfolding with_config create_asked config_input
    with_config-Answers body none s h = record { outcome = refl; world = refl; cached = h }
    with_config-Answers body (some config) s h =
        with_merged-Answers body (merge_input_ref body.payload body.input_ref) s h

    with_body-Answers :
        (body : Option (ImportBody Q.Num)) (s : Server R Q M configs)
        → IsRegistry M configs s.registry
        → Answers
            (body_input M configs key body)
            s.world
            (with_body R Q M configs fresh body key user now s)
    unfolding with_body create_asked body_input
    with_body-Answers none s h = record { outcome = refl; world = refl; cached = h }
    with_body-Answers (some body) s h =
        with_config-Answers body (get_config configs body.pipeline_id) s h

    -- With a registry whose caches hold what is loaded, POST /import answers and changes the queue
    -- as the use case does for the input that the body gives with each pipeline's meta loaded anew,
    -- and leaves such a registry; an error of the body or a missing user is the answer, and the
    -- queue is left as it is.
    pub import_handler-Answers :
        (body : Value Q.Num) (s : Server R Q M configs)
        → IsRegistry M configs s.registry
        → Answers
            (input_of M configs key body)
            s.world
            (import_handler R Q M configs fresh body key user now s)
    unfolding import_handler input_of
    import_handler-Answers body s h = with_body-Answers (parse_import_body configs body) s h

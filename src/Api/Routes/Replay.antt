-- ===== src/Api/Routes/Replay.antt =====
-- A request to import that is sent twice, from its headers on.
use recipe_import_from_anyth.Base.{
  ℕ, ◌+◌, ◌≤◌, ◌<◌, ◌≡◌, ◌≢◌, refl, ap, true, false, String, some, List,
}
use recipe_import_from_anyth.Base.Map.{Map}
use recipe_import_from_anyth.Effects.{Outcome, ok, thrown, error, unrecoverable, api_error}
use recipe_import_from_anyth.Ids.{UserId, IdempotencyKey}
use recipe_import_from_anyth.Value.{Value}
use recipe_import_from_anyth.Queue.Redis.{Redis}
use recipe_import_from_anyth.Queue.Bull.{Bull}
use recipe_import_from_anyth.Queue.Idempotency.{idempotency_ttl_ms}
use recipe_import_from_anyth.UseCases.{CreateImportJobResult, idempotency_key_of}
use recipe_import_from_anyth.Registry.{Modules, PipelineConfig, IsRegistry}
use recipe_import_from_anyth.Api.Errors.{success, error_handler}
use recipe_import_from_anyth.Api.Authentication.{HeaderValue, to_header_record, auth_pre_handler}
use recipe_import_from_anyth.Api.Import.{resolve_idempotency_key, import_handler}
use recipe_import_from_anyth.Api.Import.Replay.{import_handler-again}
use recipe_import_from_anyth.Api.Routes.{
  Payload, created, Service, Surroundings, import_job, header, sent, handle, after_hook, serve,
}

sent-created :
    {N : Type 0} (o : Outcome CreateImportJobResult) (r : CreateImportJobResult)
    → sent {B = Payload N} 202 created o ≡ success 202 (created r)
    → o ≡ ok r
unfolding error_handler
sent-created (ok a) r e = cc e
sent-created (thrown (error s)) r e = cc e
sent-created (thrown (unrecoverable s)) r e = cc e
sent-created (thrown (api_error code name)) r e = cc e

module _ (R : Redis) (Q : Bull) (M : Modules Q.Num) (configs : List PipelineConfig)
    (before after : Surroundings R Q M configs) (authenticate : Map String → Outcome UserId)
    (headers : List (String × HeaderValue)) (body : Value Q.Num) (user : UserId)
    (key : IdempotencyKey) (now later : ℕ) where
  -- A request to import that is authenticated and has an idempotency key, and that has created a
  -- job with an id that is not empty, with a registry whose caches hold what is loaded: the same
  -- request in the next 24 hours is answered with 202, that job, and that it is a duplicate, and
  -- leaves the temporary inputs, the queue and its Redis as they are.
  pub serve-again :
      (s t : Service R Q M configs) (r : CreateImportJobResult)
      → authenticate (to_header_record headers) ≡ ok user
      → idempotency_key_of (resolve_idempotency_key (header "idempotency-key" headers))
        ≡ ok (some key)
      → before.fresh.value ≢ ""
      → now ≤ later
      → later < now + idempotency_ttl_ms
      → IsRegistry M configs s.server.registry
      → serve R Q M configs before authenticate (import_job body) headers now s
        ≡ (success 202 (created r), t)
      → r.is_duplicate ≡ false
      → ((serve R Q M configs after authenticate (import_job body) headers later t).0
          ≡ success 202 (created (record { job_id = before.fresh; is_duplicate = true })))
        × ((serve R Q M configs after authenticate (import_job body) headers later t).1.folder
            ≡ t.folder)
        × ((serve R Q M configs after authenticate (import_job body) headers later t).1.server.world
            ≡ t.server.world)
  unfolding serve auth_pre_handler after_hook handle
  serve-again s t r known keyed filled p q h e new =
      let made = rw known at e in
      let first : import_handler R Q M configs before.fresh body (header "idempotency-key" headers)
            (some user) now s.server
          ≡ (ok r, t.server) =
        λ i. (sent-created _ r (ap (λ x. x.0) made) i, (made i).1.server) in
      let (reply, world) =
        import_handler-again R Q M configs before.fresh after.fresh body
          (header "idempotency-key" headers) (some user) key now later keyed filled p q s.server
          t.server r h first new in
      rw known (ap (sent 202 created) reply, refl, world)

-- ===== src/Api/Import/Replay.antt =====
-- A request to import that is sent twice.
use recipe_import_from_anyth.Base.{
  ℕ, ◌+◌, ◌≤◌, ◌<◌, ◌≡◌, ◌≢◌, ap, sym, ◌∙◌, subst, true, false, Option, some, List,
}
use recipe_import_from_anyth.Effects.{Outcome, ok, thrown}
use recipe_import_from_anyth.Ids.{JobId, UserId, IdempotencyKey}
use recipe_import_from_anyth.Value.{Value}
use recipe_import_from_anyth.Queue.Redis.{Redis}
use recipe_import_from_anyth.Queue.Bull.{Bull}
use recipe_import_from_anyth.Queue.Idempotency.{idempotency_ttl_ms}
use recipe_import_from_anyth.Queue.Manager.{World}
use recipe_import_from_anyth.UseCases.{
  CreateImportJobInput, CreateImportJobResult, idempotency_key_of,
}
use recipe_import_from_anyth.UseCases.Creating.{create_import_job-again}
use recipe_import_from_anyth.Registry.{Modules, PipelineConfig, IsRegistry}
use recipe_import_from_anyth.Api.Authentication.{HeaderValue, require_user_id}
use recipe_import_from_anyth.Api.Import.{resolve_idempotency_key, Server, import_handler}
use recipe_import_from_anyth.Api.Import.Stateless.{
  HasKey, input_of, input_of-HasKey, create_asked, import_handler-Answers,
}

module _ (R : Redis) (Q : Bull) (M : Modules Q.Num) (configs : List PipelineConfig)
    (fresh fresh' : JobId) (body : Value Q.Num) (header : HeaderValue) (user : Option UserId)
    (key : IdempotencyKey) (now later : ℕ)
    (keyed : idempotency_key_of (resolve_idempotency_key header) ≡ ok (some key))
    (nonempty : fresh.value ≢ "") (after : now ≤ later)
    (live : later < now + idempotency_ttl_ms) where
  asked_again :
      (asked : Outcome (CreateImportJobInput Q.Num)) (who : Outcome UserId) (w v : World R Q)
      (r : CreateImportJobResult)
      → HasKey M configs header asked
      → create_asked R Q M configs fresh asked who now w ≡ (ok r, v)
      → r.is_duplicate ≡ false
      → create_asked R Q M configs fresh' asked who later v
        ≡ (ok (record { job_id = fresh; is_duplicate = true }), v)
  unfolding create_asked
  asked_again (thrown f) who w v r named e new = cc
  asked_again (ok input) (thrown f) w v r named e new = cc
  asked_again (ok input) (ok u) w v r named e new =
      create_import_job-again R Q fresh fresh' u input key now later w v
        (ap idempotency_key_of named ∙ keyed) nonempty after live r e new

  -- Where POST /import under an idempotency key has created a job with an id that is not empty,
  -- with a registry whose caches hold what is loaded, the same request of the same user in the next
  -- 24 hours is answered with that job as a duplicate, and leaves the queue and its Redis as they
  -- are.
  pub import_handler-again :
      (s t : Server R Q M configs) (r : CreateImportJobResult)
      → IsRegistry M configs s.registry
      → import_handler R Q M configs fresh body header user now s ≡ (ok r, t)
      → r.is_duplicate ≡ false
      → ((import_handler R Q M configs fresh' body header user later t).0
          ≡ ok (record { job_id = fresh; is_duplicate = true }))
        × ((import_handler R Q M configs fresh' body header user later t).1.world ≡ t.world)
  import_handler-again s t r h e new =
      let first = import_handler-Answers R Q M configs fresh header user now body s h in
      let kept : IsRegistry M configs t.registry =
        subst (λ x. IsRegistry M configs x.registry) (ap (λ x. x.1) e) first.cached in
      let second = import_handler-Answers R Q M configs fresh' header user later body t kept in
      let asked = input_of M configs header body in
      let made : create_asked R Q M configs fresh asked (require_user_id user) now s.world
          ≡ (ok r, t.world) =
        λ i.
          ((sym first.outcome ∙ ap (λ x. x.0) e) i, (sym first.world ∙ ap (λ x. x.1.world) e) i) in
      let twice =
        asked_again asked (require_user_id user) s.world t.world r
          (input_of-HasKey M configs header body) made new in
      (second.outcome ∙ ap (λ x. x.0) twice, second.world ∙ ap (λ x. x.1) twice)

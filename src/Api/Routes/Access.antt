-- ===== src/Api/Routes/Access.antt =====
-- What a request may change, and who may make it.
use recipe_import_from_anyth.Base.{
  ℕ, ◌≡◌, refl, String, Option, none, some, List, Bool-cases, inl, inr,
}
use recipe_import_from_anyth.Base.Map.{Map}
use recipe_import_from_anyth.Effects.{Outcome, ok, thrown, Failure}
use recipe_import_from_anyth.Ids.{UserId}
use recipe_import_from_anyth.Queue.Redis.{Redis}
use recipe_import_from_anyth.Queue.Bull.{Bull}
use recipe_import_from_anyth.Registry.{Modules, PipelineConfig}
use recipe_import_from_anyth.Api.Errors.{Reply, success, failure, from_fastify, error_handler}
use recipe_import_from_anyth.Api.Authentication.{HeaderValue, to_header_record, auth_pre_handler}
use recipe_import_from_anyth.Api.Routes.{
  Route, health, inputs, import_job, job_status, job_result, cancel, websocket, unreadable, unknown,
  opened, is_protected, Payload, Service, Surroundings, after_hook, handle, serve,
}

module _ (R : Redis) (Q : Bull) (M : Modules Q.Num) (configs : List PipelineConfig) where
  -- The parts of the service that a route leaves as they are.
  abbrev pub Keeps : Route Q.Num → Service R Q M configs → Service R Q M configs → Type 0
  Keeps (inputs body) s t = t.server ≡ s.server
  Keeps (import_job body) s t = t.folder ≡ s.folder
  Keeps (cancel params) s t = (t.folder ≡ s.folder) × (t.server.registry ≡ s.server.registry)
  Keeps _ s t = t ≡ s

  -- What the answer to a refused request is: 401 where the route needs a user.
  abbrev pub IsRefusal :
      Surroundings R Q M configs
      → Route Q.Num
      → List (String × HeaderValue)
      → ℕ
      → Service R Q M configs
      → Reply (Payload Q.Num)
      → Type 0
  IsRefusal e health headers now s reply =
      reply ≡ (handle R Q M configs e health headers none now s).0
  IsRefusal e websocket headers now s reply = reply ≡ success 101 opened
  IsRefusal e (unreadable validation status) headers now s reply =
      reply ≡ error_handler (from_fastify validation status)
  IsRefusal e unknown headers now s reply = reply ≡ failure 404 "NOT_FOUND"
  IsRefusal e _ headers now s reply = reply ≡ failure 401 "UNAUTHORIZED"

  module _ (e : Surroundings R Q M configs) (authenticate : Map String → Outcome UserId)
      (headers : List (String × HeaderValue)) (now : ℕ) (s : Service R Q M configs) where
    -- A request that the authentication refuses, and that the rate limit and CORS let through,
    -- changes nothing. It is answered with 401 by the routes of inputs, imports and jobs; the
    -- health check is answered as without a user, /ws opens a WebSocket, what Fastify cannot read
    -- before the hook gets the error handler's reply, and what is no route 404.
    pub serve-IsRefusal :
        (route : Route Q.Num) (f : Failure)
        → authenticate (to_header_record headers) ≡ thrown f
        → IsRefusal e route headers now s (serve R Q M configs e authenticate route headers now s).0
          × ((serve R Q M configs e authenticate route headers now s).1 ≡ s)
    unfolding serve auth_pre_handler error_handler handle after_hook
    serve-IsRefusal health f refused = (refl, refl)
    serve-IsRefusal websocket f refused = (refl, refl)
    serve-IsRefusal (unreadable validation status) f refused = (refl, refl)
    serve-IsRefusal unknown f refused = (refl, refl)
    serve-IsRefusal (inputs body) f refused = rw refused (refl, refl)
    serve-IsRefusal (import_job body) f refused = rw refused (refl, refl)
    serve-IsRefusal (job_status params) f refused = rw refused (refl, refl)
    serve-IsRefusal (job_result params) f refused = rw refused (refl, refl)
    serve-IsRefusal (cancel params) f refused = rw refused (refl, refl)

  module _ (e : Surroundings R Q M configs) (headers : List (String × HeaderValue)) (now : ℕ)
      (s : Service R Q M configs) where
    handle-Keeps :
        (route : Route Q.Num) (user : Option UserId)
        → Keeps route s (handle R Q M configs e route headers user now s).1
    unfolding handle
    handle-Keeps health user = refl
    handle-Keeps websocket user = refl
    handle-Keeps (unreadable validation status) user = refl
    handle-Keeps unknown user = refl
    handle-Keeps (inputs body) user = refl
    handle-Keeps (import_job body) user = refl
    handle-Keeps (job_status params) user = refl
    handle-Keeps (job_result params) user = refl
    handle-Keeps (cancel params) user = (refl, refl)

    Keeps-same : (route : Route Q.Num) → Keeps route s s
    Keeps-same health = refl
    Keeps-same websocket = refl
    Keeps-same (unreadable validation status) = refl
    Keeps-same unknown = refl
    Keeps-same (inputs body) = refl
    Keeps-same (import_job body) = refl
    Keeps-same (job_status params) = refl
    Keeps-same (job_result params) = refl
    Keeps-same (cancel params) = (refl, refl)

    after_hook-Keeps :
        (user : Outcome UserId) (route : Route Q.Num)
        → Keeps route s (after_hook R Q M configs e user route headers now s).1
    unfolding after_hook
    after_hook-Keeps (thrown f) route = Keeps-same route
    after_hook-Keeps (ok user) route = handle-Keeps route (some user)

    -- Whatever a request is answered: an upload leaves the registry and the queue as they are, a
    -- new job leaves the temporary inputs, a cancellation leaves the temporary inputs and the
    -- registry, and every other request changes nothing.
    pub serve-Keeps :
        (authenticate : Map String → Outcome UserId) (route : Route Q.Num)
        → Keeps route s (serve R Q M configs e authenticate route headers now s).1
    unfolding serve
    serve-Keeps authenticate route = elim (Bool-cases (is_protected route)) [
      | inl guarded ↦ rw guarded (after_hook-Keeps _ route)
      | inr free ↦ rw free (handle-Keeps route none)
    ]

-- ===== src/Queue/Manager/Enqueue.antt =====
-- Enqueueing a job under an idempotency key.
use recipe_import_from_anyth.Base.{
  ℕ, ◌+◌, ◌≤◌, ◌<◌, ◌≡◌, ◌≢◌, inl, inr, refl, sym, ap, ◌∙◌, subst, true, false, String, append,
  none, some, arith, Option-cases,
}
use recipe_import_from_anyth.Effects.{Outcome, ok, thrown, Failure, error}
use recipe_import_from_anyth.Ids.{JobId, UserId, IdempotencyKey}
use recipe_import_from_anyth.Queue.Redis.{Redis}
use recipe_import_from_anyth.Queue.Bull.{Bull}
use recipe_import_from_anyth.Queue.Idempotency.{
  build_key, build_key_collides, check, set, check_same_key, check-set, check_and_set_absent,
  check_and_set_present, idempotency_ttl_ms,
}
use recipe_import_from_anyth.Queue.Manager.{
  JobData, World, EnqueueResult, bullmq_data, after_add, enqueue, claim, enqueue_claimed, keyed,
  enqueue_with_idempotency,
}

abbrev pub new_job : JobId → EnqueueResult
new_job job = record { created = true; job_id = job.value }

abbrev pub old_job : JobId → EnqueueResult
old_job job = record { created = false; job_id = job.value }

module _ (R : Redis) (Q : Bull) where
  -- What a request under a key does: it finds a job, it creates one, or BullMQ fails after the key
  -- has been claimed.
  data Enqueued (job : JobId) (d : JobData Q.Num) (key : IdempotencyKey) (now : ℕ) (w : World R Q)
      : Outcome EnqueueResult × World R Q → Type 0 where
    found :
        (existing : JobId)
        → check R d.user_id key now w.redis ≡ some existing
        → Enqueued job d key now w (ok (old_job existing), w)
    created :
        (queue : Q.Store)
        → check R d.user_id key now w.redis ≡ none
        → Q.add job.value (bullmq_data d) w.queue ≡ some queue
        → Enqueued job d key now w (
          ok (new_job job),
          record { redis = set R d.user_id key job now w.redis; queue = queue },
        )
    lost :
        (f : Failure)
        → check R d.user_id key now w.redis ≡ none
        → Enqueued job d key now w
            (thrown f, record w { redis = set R d.user_id key job now w.redis })

  module _ (job : JobId) (d : JobData Q.Num) (key : IdempotencyKey) (now : ℕ) (w : World R Q) where
    keyed-Enqueued : Enqueued job d key now w (keyed R Q (some key) job d now w)
    unfolding keyed claim enqueue_claimed enqueue after_add
    keyed-Enqueued = elim (Option-cases (check R d.user_id key now w.redis)) [
      | inl absent ↦
          rw (check_and_set_absent R d.user_id key job now w.redis absent)
            (elim (Option-cases (Q.add job.value (bullmq_data d) w.queue)) [
              | inl failed ↦ rw failed (lost (error "queue.add failed") absent)
              | inr (queue, done) ↦ rw done (created queue absent done)
            ])
      | inr (existing, present) ↦
          rw (check_and_set_present R d.user_id key job existing now w.redis present)
            (found existing present)
    ]

    enqueue-Enqueued :
        d.idempotency_key ≡ some key
        → Enqueued job d key now w (enqueue_with_idempotency R Q job d now w)
    unfolding enqueue_with_idempotency
    enqueue-Enqueued e =
        subst (λ k. Enqueued job d key now w (keyed R Q k job d now w)) (sym e) keyed-Enqueued

  found-eq :
      {job old : JobId} {d : JobData Q.Num} {key : IdempotencyKey} {now : ℕ} {w : World R Q}
      {r : Outcome EnqueueResult × World R Q}
      → Enqueued job d key now w r
      → check R d.user_id key now w.redis ≡ some old
      → r ≡ (ok (old_job old), w)
  found-eq {w = w} (found existing c) h = ground (arith, c, h)
  found-eq (created queue c a) h = cc (c, h)
  found-eq (lost f c) h = cc (c, h)

  module _ (job : JobId) (d : JobData Q.Num) (key : IdempotencyKey) (now : ℕ)
      (nonempty : job.value ≢ "") where
    -- Within the time to live of a claimed key, a request whose Redis key is the same is a
    -- duplicate.
    claimed-duplicate :
        (s : R.Store) (job' : JobId) (d' : JobData Q.Num) (key' : IdempotencyKey) (later : ℕ)
        (v : World R Q)
        → d'.idempotency_key ≡ some key'
        → build_key d.user_id key ≡ build_key d'.user_id key'
        → now ≤ later
        → later < now + idempotency_ttl_ms
        → v.redis ≡ set R d.user_id key job now s
        → enqueue_with_idempotency R Q job' d' later v ≡ (ok (old_job job), v)
    claimed-duplicate s job' d' key' later v named' same p q e =
        found-eq (enqueue-Enqueued job' d' key' later v named') (
          check_same_key R d.user_id d'.user_id key key' later v.redis same
          ∙ ap (check R d.user_id key later) e
          ∙ check-set R d.user_id key job now later s p q nonempty)

    Enqueued-redis :
        {w v : World R Q} {result : EnqueueResult} {r : Outcome EnqueueResult × World R Q}
        → Enqueued job d key now w r
        → r ≡ (ok result, v)
        → result.created ≡ true
        → v.redis ≡ set R d.user_id key job now w.redis
    Enqueued-redis (found existing c) e t = ground arith
    Enqueued-redis (created queue c a) e t = ground arith
    Enqueued-redis (lost f c) e t = cc

  Enqueued-created :
      {job : JobId} {d : JobData Q.Num} {key : IdempotencyKey} {now : ℕ} {w v : World R Q}
      {result : EnqueueResult} {r : Outcome EnqueueResult × World R Q}
      → Enqueued job d key now w r
      → r ≡ (ok result, v)
      → result.created ≡ true
      → result ≡ new_job job
  Enqueued-created (found existing c) e t = ground arith
  Enqueued-created (created queue c a) e t = ground arith
  Enqueued-created (lost f c) e t = cc

  Enqueued-lost :
      {job : JobId} {d : JobData Q.Num} {key : IdempotencyKey} {now : ℕ} {w v : World R Q}
      {f : Failure} {r : Outcome EnqueueResult × World R Q}
      → Enqueued job d key now w r
      → r ≡ (thrown f, v)
      → (v.redis ≡ set R d.user_id key job now w.redis) × (v.queue ≡ w.queue)
  Enqueued-lost (found existing c) e = cc
  Enqueued-lost (created queue c a) e = cc
  Enqueued-lost (lost f c) e = (ground arith, ground arith)

  module _ (job job' : JobId) (d d' : JobData Q.Num) (key key' : IdempotencyKey) (now later : ℕ)
      (w v : World R Q) (named : d.idempotency_key ≡ some key)
      (named' : d'.idempotency_key ≡ some key') (nonempty : job.value ≢ "") (after : now ≤ later)
      (live : later < now + idempotency_ttl_ms) where
    -- After a request has created a job with an id that is not empty under a key, a request of the
    -- same user with the same key in the next 24 hours is answered with that job, as not created,
    -- and changes nothing.
    pub enqueue-duplicate :
        d'.user_id ≡ d.user_id
        → key' ≡ key
        → enqueue_with_idempotency R Q job d now w ≡ (ok (new_job job), v)
        → enqueue_with_idempotency R Q job' d' later v ≡ (ok (old_job job), v)
    enqueue-duplicate users keys e =
        claimed-duplicate job d key now nonempty w.redis job' d' key' later v named'
          (cc (ap (λ (u : UserId). build_key u key) users, keys)) after live
          (Enqueued-redis job d key now nonempty (enqueue-Enqueued job d key now w named) e refl)

    -- the same for whatever result says that the job was created
    pub enqueue-again :
        (result : EnqueueResult)
        → d'.user_id ≡ d.user_id
        → key' ≡ key
        → enqueue_with_idempotency R Q job d now w ≡ (ok result, v)
        → result.created ≡ true
        → enqueue_with_idempotency R Q job' d' later v ≡ (ok (old_job job), v)
    enqueue-again result users keys e t =
        let made = Enqueued-created (enqueue-Enqueued job d key now w named) e t in
        enqueue-duplicate users keys (e ∙ ap (λ x. (ok x, v)) made)

    -- When BullMQ fails to add a job with an id that is not empty, the key stays claimed: for 24
    -- hours each request of that user with that key is answered with the job that was never added,
    -- and creates none.
    pub enqueue-lost :
        (f : Failure)
        → d'.user_id ≡ d.user_id
        → key' ≡ key
        → enqueue_with_idempotency R Q job d now w ≡ (thrown f, v)
        → (v.queue ≡ w.queue)
          × (enqueue_with_idempotency R Q job' d' later v ≡ (ok (old_job job), v))
    enqueue-lost f users keys e =
        let lost = Enqueued-lost (enqueue-Enqueued job d key now w named) e in
        (
          lost.1,
          claimed-duplicate job d key now nonempty w.redis job' d' key' later v named'
              (cc (ap (λ (u : UserId). build_key u key) users, keys)) after live lost.0,
        )

    -- A user "a:b" with a key "c" and a user "a" with the key "b:c" share their entry, for any
    -- texts a, b and c: after the first has created a job with an id that is not empty, the second
    -- is, for 24 hours, answered with that job.
    pub enqueue-crosses_users :
        (a b c : String)
        → d.user_id ≡ record { value = append a (append ":" b) }
        → key ≡ record { value = c }
        → d'.user_id ≡ record { value = a }
        → key' ≡ record { value = append b (append ":" c) }
        → enqueue_with_idempotency R Q job d now w ≡ (ok (new_job job), v)
        → enqueue_with_idempotency R Q job' d' later v ≡ (ok (old_job job), v)
    enqueue-crosses_users a b c user keyed_by user' keyed_by' e =
        claimed-duplicate job d key now nonempty w.redis job' d' key' later v named'
          (rw (user, keyed_by, user', keyed_by') (build_key_collides a b c)) after live
          (Enqueued-redis job d key now nonempty (enqueue-Enqueued job d key now w named) e refl)

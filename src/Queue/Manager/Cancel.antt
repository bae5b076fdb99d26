-- ===== src/Queue/Manager/Cancel.antt =====
-- Cancelling a job.
use recipe_import_from_anyth.Base.{
  ℕ, ◌+◌, ◌≤◌, ◌<◌, ◌≡◌, ◌≢◌, ◌⊎◌, inl, inr, refl, Bool, true, false, ◌||◌, String, ◌==◌, none,
  some, is_some, ◌↔◌, arith, eq_iff, eq_refl, Option-cases, Bool-cases,
}
use recipe_import_from_anyth.Ids.{JobId}
use recipe_import_from_anyth.Queue.Redis.{Redis}
use recipe_import_from_anyth.Queue.Bull.{Bull, BullMqJob}
use recipe_import_from_anyth.Queue.Cancellation.{
  is_canceled, is_canceled-other, is_canceled-mark_canceled, cancellation_ttl_ms,
}
use recipe_import_from_anyth.Queue.Manager.{
  World, get_job, after_remove, remove_job, mark, cancel_in, cancel,
}

module _ (R : Redis) (Q : Bull) (job : JobId) (now : ℕ) (w : World R Q) where
  -- The job is no longer in the queue, or is marked as canceled for an hour from `now` on.
  abbrev pub IsStopped : World R Q → Type 0
  IsStopped v =
      (get_job R Q job v ≡ none)
      ⊎ ((later : ℕ)
          → now ≤ later
          → later < now + cancellation_ttl_ms
          → is_canceled R job later v.redis ≡ true)

  mark-IsStopped : IsStopped (mark R Q job now w)
  unfolding mark
  mark-IsStopped =
      inr (λ later p q. ground (arith, is_canceled-mark_canceled R job now later w.redis p))

  -- A removal fails and changes nothing, or the queue has removed the job.
  remove_job_cases :
      (remove_job R Q job w ≡ (false, w))
      ⊎ ((queue : Q.Store) × (Q.remove job.value w.queue ≡ some queue)
          × (remove_job R Q job w ≡ (true, record w { queue = queue })))
  unfolding remove_job after_remove get_job
  remove_job_cases = elim (Option-cases (Q.get_job job.value w.queue)) [
    | inl absent ↦ inl (ground arith)
    | inr (j, found) ↦ elim (Option-cases (Q.remove job.value w.queue)) [
      | inl failed ↦ inl (ground arith)
      | inr (queue, done) ↦ inr (queue, done, ground arith)
    ]
  ]

  get_job-removed :
      (queue : Q.Store)
      → Q.remove job.value w.queue ≡ some queue
      → get_job R Q job (record w { queue = queue }) ≡ none
  unfolding get_job
  get_job-removed queue done =
      ground (arith, Q.get_job-remove job.value job.value w.queue queue done, eq_refl job.value)

  -- What a cancellation does: nothing, a removal or a mark.
  data Canceled : Bool × World R Q → Type 0 where
    refused : Canceled (false, w)
    removal :
        (queue : Q.Store)
        → Q.remove job.value w.queue ≡ some queue
        → Canceled (true, record w { queue = queue })
    marked : Canceled (true, mark R Q job now w)

  remove_job-Canceled : Canceled (remove_job R Q job w)
  remove_job-Canceled = elim remove_job_cases [
    | inl e ↦ rw e refused
    | inr (queue, done, e) ↦ rw e (removal queue done)
  ]

  cancel_in-Canceled : (state : String) → Canceled (cancel_in R Q state job now w)
  unfolding cancel_in
  cancel_in-Canceled state =
      elim (Bool-cases (state == "waiting" || state == "delayed" || state == "prioritized")) [
        | inl waits ↦ rw waits remove_job-Canceled
        | inr other ↦ elim (Bool-cases (state == "active")) [
          | inl runs ↦ rw (other, runs) marked
          | inr rest ↦ rw (other, rest) refused
        ]
      ]

  cancel-Canceled : Canceled (cancel R Q job now w)
  unfolding cancel
  cancel-Canceled = elim (Option-cases (get_job R Q job w)) [
    | inl absent ↦ rw (absent, cancel) refused
    | inr (j, found) ↦ rw (found, cancel) (cancel_in-Canceled j.state)
  ]

  Canceled-IsStopped : {r : Bool × World R Q} → Canceled r → r.0 ≡ true → IsStopped r.1
  Canceled-IsStopped refused h = cc
  Canceled-IsStopped (removal queue done) h = inl (get_job-removed queue done)
  Canceled-IsStopped marked h = mark-IsStopped

  Canceled-unchanged : {r : Bool × World R Q} → Canceled r → r.0 ≡ false → r.1 ≡ w
  Canceled-unchanged refused h = refl
  Canceled-unchanged (removal queue done) h = cc
  Canceled-unchanged marked h = cc

  Canceled-other :
      {r : Bool × World R Q}
      → Canceled r
      → (other : JobId) → job.value ≢ other.value
      → get_job R Q other r.1 ≡ get_job R Q other w
  unfolding get_job mark
  Canceled-other refused other ne = refl
  Canceled-other (removal queue done) other ne = ground (
    arith,
    Q.get_job-remove other.value job.value w.queue queue done,
    eq_iff job.value other.value,
  )
  Canceled-other marked other ne = refl

  Canceled-unmarked :
      {r : Bool × World R Q}
      → Canceled r
      → (other : JobId) (later : ℕ) → job.value ≢ other.value
      → now ≤ later
      → is_canceled R other later r.1.redis ≡ is_canceled R other later w.redis
  unfolding mark
  Canceled-unmarked refused other later ne h = refl
  Canceled-unmarked (removal queue done) other later ne h = refl
  Canceled-unmarked marked other later ne h = is_canceled-other R job other now later w.redis ne h

  -- A cancellation that succeeds has taken the job out of the queue or has marked it for an hour;
  -- one that does not has changed nothing. In both cases every other job is in the queue as it was,
  -- and is from then on marked as canceled exactly when it was so before.
  pub cancel-IsStopped :
      ((cancel R Q job now w).0 ≡ true → IsStopped (cancel R Q job now w).1)
      × ((cancel R Q job now w).0 ≡ false → (cancel R Q job now w).1 ≡ w)
      × ((other : JobId)
          → job.value ≢ other.value
          → get_job R Q other (cancel R Q job now w).1 ≡ get_job R Q other w)
      × ((other : JobId) (later : ℕ)
          → job.value ≢ other.value
          → now ≤ later
          → is_canceled R other later (cancel R Q job now w).1.redis
            ≡ is_canceled R other later w.redis)
  cancel-IsStopped = (
    Canceled-IsStopped cancel-Canceled,
    Canceled-unchanged cancel-Canceled,
    Canceled-other cancel-Canceled,
    Canceled-unmarked cancel-Canceled,
  )

  -- A cancellation of a job in the queue succeeds exactly when the job is active, or waits (as
  -- "waiting", "delayed" or "prioritized") and BullMQ removes it.
  cancel_iff :
      (j : BullMqJob Q.Num)
      → get_job R Q job w ≡ some j
      → ((cancel R Q job now w).0 ≡ true) ↔ (
          (j.state ≡ "active")
          ⊎ (((j.state == "waiting" || j.state == "delayed" || j.state == "prioritized") ≡ true)
              × (is_some (Q.remove job.value w.queue) ≡ true)))
  unfolding cancel cancel_in get_job remove_job after_remove
  cancel_iff j found = ground (
    arith,
    eq_iff j.state "active",
    eq_iff j.state "waiting",
    eq_iff j.state "delayed",
    eq_iff j.state "prioritized",
    eq_iff "active" "waiting",
    eq_iff "active" "delayed",
    eq_iff "active" "prioritized",
  )

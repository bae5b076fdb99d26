-- ===== src/Queue/Idempotency.antt =====
-- src/infrastructure/bullmq/idempotency/idempotency-manager.ts: one job for each idempotency key
-- of a user, within 24 hours. Each method takes the time at which it runs.
use recipe_import_from_anyth.Base.{
  ℕ, ◌+◌, ◌*◌, ◌≤◌, ◌<◌, ◌≡◌, ◌≢◌, Bool, String, append, text_append_assoc, Option, none, some,
  is_empty, if◌then◌else◌, arith, eq_refl,
}
use recipe_import_from_anyth.Ids.{JobId, UserId, IdempotencyKey}
use recipe_import_from_anyth.Queue.Redis.{Redis}

abbrev pub idempotency_key_prefix : String
idempotency_key_prefix = "recipe-import:idempotency"

abbrev pub idempotency_ttl_ms : ℕ
idempotency_ttl_ms = 24 * 60 * 60000

pub build_key : UserId → IdempotencyKey → String
build_key user key =
    append idempotency_key_prefix (append ":" (append user.value (append ":" key.value)))

-- A user whose id ends in ":b" and a key "c" share their entry with the user without that end and
-- the key "b:c".
pub build_key_collides :
    (a b c : String)
    → build_key (record { value = append a (append ":" b) }) (record { value = c })
      ≡ build_key (record { value = a }) (record { value = append b (append ":" c) })
unfolding build_key
build_key_collides a b c = simp text_append_assoc

-- `existingJobId ? new JobId(existingJobId) : null`, where the empty text is falsy
abbrev job_of_entry : Option String → Option JobId
job_of_entry none = none
job_of_entry (some v) = if is_empty v then none else some (record { value = v })

module _ (R : Redis) where
  open R use {Store, get, set_px, set_px_nx, get-set_px, set_px_nx_lem}

  unfoldable pub check : UserId → IdempotencyKey → ℕ → Store → Option JobId
  check user key now s = job_of_entry (get (build_key user key) now s)

  unfoldable pub set : UserId → IdempotencyKey → JobId → ℕ → Store → Store
  unfolding build_key
  set user key job now s = set_px (build_key user key) job.value idempotency_ttl_ms now s

  unfoldable pub try_set : UserId → IdempotencyKey → JobId → ℕ → Store → Bool × Store
  unfolding build_key
  try_set user key job now s = set_px_nx (build_key user key) job.value idempotency_ttl_ms now s

  unfoldable pub check_and_set : UserId → IdempotencyKey → JobId → ℕ → Store → Option JobId × Store
  check_and_set user key job now s = elim (check user key now s) [
    | some existing ↦ (some existing, s)
    | none ↦ (none, set user key job now s)
  ]

  -- An entry is found by every user and key with the same Redis key.
  pub check_same_key :
      (user user' : UserId) (key key' : IdempotencyKey) (now : ℕ) (s : Store)
      → build_key user key ≡ build_key user' key'
      → check user' key' now s ≡ check user key now s
  unfolding check
  check_same_key user user' key key' now s e = rw e

  -- A key that is set is found, as the job it was set for, until 24 hours have passed, where the
  -- id of the job is not empty.
  pub check-set :
      (user : UserId) (key : IdempotencyKey) (job : JobId) (now later : ℕ) (s : Store)
      → now ≤ later
      → later < now + idempotency_ttl_ms
      → job.value ≢ ""
      → check user key later (set user key job now s) ≡ some job
  unfolding check set
  check-set user key job now later s p q ne = ground (
    arith,
    get-set_px (build_key user key) (build_key user key) job.value idempotency_ttl_ms now later s p,
    eq_refl (build_key user key),
  )

  pub check_and_set_absent :
      (user : UserId) (key : IdempotencyKey) (job : JobId) (now : ℕ) (s : Store)
      → check user key now s ≡ none
      → check_and_set user key job now s ≡ (none, set user key job now s)
  unfolding check_and_set
  check_and_set_absent user key job now s h = rw (h, check_and_set)

  pub check_and_set_present :
      (user : UserId) (key : IdempotencyKey) (job old : JobId) (now : ℕ) (s : Store)
      → check user key now s ≡ some old
      → check_and_set user key job now s ≡ (some old, s)
  unfolding check_and_set
  check_and_set_present user key job old now s h = rw (h, check_and_set)

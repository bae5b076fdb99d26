-- ===== src/Queue/Cancellation.antt =====
-- src/infrastructure/bullmq/cancellation/cancellation-monitor.ts: requests to cancel a running job,
-- kept for an hour.
use recipe_import_from_anyth.Base.{
  ℕ, ◌+◌, ◌*◌, ◌≤◌, ◌≡◌, Bool, false, String, append, is_some, ltb, arith, eq_refl, eq_iff, ◌≢◌,
}
use text.Mathlib.TextLemmas.{append_cancel_left}
use recipe_import_from_anyth.Ids.{JobId}
use recipe_import_from_anyth.Queue.Redis.{Redis}

abbrev pub cancellation_key_prefix : String
cancellation_key_prefix = "recipe-import:cancel"

abbrev pub cancellation_ttl_ms : ℕ
cancellation_ttl_ms = 60 * 60000

pub cancellation_key : JobId → String
cancellation_key job = append cancellation_key_prefix (append ":" job.value)

module _ (R : Redis) where
  open R use {Store, get, set_px, del, get-set_px, get-del}

  pub mark_canceled : JobId → ℕ → Store → Store
  mark_canceled job now s = set_px (cancellation_key job) "1" cancellation_ttl_ms now s

  -- EXISTS
  pub is_canceled : JobId → ℕ → Store → Bool
  is_canceled job now s = is_some (get (cancellation_key job) now s)

  pub clear : JobId → Store → Store
  clear job s = del (cancellation_key job) s

  -- A mark holds for an hour and no longer.
  pub is_canceled-mark_canceled :
      (job : JobId) (now later : ℕ) (s : Store)
      → now ≤ later
      → is_canceled job later (mark_canceled job now s) ≡ ltb later (now + cancellation_ttl_ms)
  unfolding is_canceled mark_canceled
  is_canceled-mark_canceled job now later s h =
      let k = cancellation_key job in
      ground (arith, get-set_px k k "1" cancellation_ttl_ms now later s h, eq_refl k)

  pub is_canceled-clear :
      (job : JobId) (now : ℕ) (s : Store) → is_canceled job now (clear job s) ≡ false
  unfolding is_canceled clear
  is_canceled-clear job now s =
      let k = cancellation_key job in ground (arith, get-del k k now s, eq_refl k)

  cancellation_key-injective :
      (job other : JobId) → cancellation_key job ≡ cancellation_key other → job.value ≡ other.value
  unfolding cancellation_key
  cancellation_key-injective job other e =
      append_cancel_left ":" job.value other.value (
        append_cancel_left cancellation_key_prefix (append ":" job.value) (append ":" other.value)
          e)

  -- A mark of one job says nothing of another.
  pub is_canceled-other :
      (job other : JobId) (now later : ℕ) (s : Store)
      → job.value ≢ other.value
      → now ≤ later
      → is_canceled other later (mark_canceled job now s) ≡ is_canceled other later s
  unfolding is_canceled mark_canceled
  is_canceled-other job other now later s ne h =
      let k = cancellation_key job in
      let j = cancellation_key other in
      ground (
        arith,
        get-set_px j k "1" cancellation_ttl_ms now later s h,
        eq_iff k j,
        cancellation_key-injective job other,
      )

-- ===== src/Mistral/Retry.antt =====
-- The retry loop that `uploadFile`, `runOcr` and `complete` each write out.
pub mod Runs
use recipe_import_from_anyth.Base.{
  ℕ, zero, suc, ◌+◌, ◌-◌, ◌<◌, ◌≤◌, ◌≡◌, refl, Bool, true, false, ◌&&◌, ◌||◌, String, List, [], ◌∷◌,
  ltb, leb, Bool-cases, inl, inr, length, max, ◌*◌, ◌^◌, ◌/◌, ap, subst, ◌∙◌, if◌then◌else◌, arith,
}
use recipe_import_from_anyth.Mistral.Settings.{
  Raised, abort_error, type_error, error, non_error, Settled, fulfilled, rejected, is_abort_error,
  is_type_error, is_retryable_http_status, compute_retry_delay_ms, compute_retry_delay_ms-bounds,
  wait_with_signal,
}
use recipe_import_from_anyth.Value.{Value}

pub record Response (N : Type 0) : Type 0 where
  pub status : ℕ
  pub text : Settled String
  pub json : Settled (Value N)

-- What an attempt meets: `fetch`, the random number, what the signal says when a wait starts, in
-- the `catch`, and whether it fires during a wait.
pub record Try (N : Type 0) : Type 0 where
  pub fetched : Settled (Response N)
  pub below : ℕ → ℕ
  pub aborted_at_wait : Bool
  pub fires : Bool
  pub aborted : Bool
  pub timed_out : Bool

-- How the three loops differ: the error for a status and its body, the reading of the answer, the
-- error for a signal that has fired, and the other two messages.
pub record Call (N A : Type 0) : Type 0 where
  pub status_error : ℕ → String → String
  pub read : Value N → Settled A
  pub aborted_error : Bool → String
  pub unknown_error : String
  pub exhausted : String

-- How one round of the loop ends: `return`, `throw`, or `continue` after a wait.
pub data Round (A : Type 0) : Type 0 where
  returns : A → Round A
  throws : Raised → Round A
  continues : ℕ → Round A

abbrev pub as_error : String → Raised → Raised
as_error unknown non_error = error unknown
as_error unknown r = r

-- `response.ok`
abbrev pub is_ok : ℕ → Bool
is_ok status = leb 200 status && leb status 299

module _ {N A : Type 0} (call : Call N A) (attempts base attempt : ℕ) (t : Try N) where
  abbrev pub delay : ℕ
  delay = compute_retry_delay_ms t.below attempt base

  abbrev pub after_wait : (Raised → Round A) → Settled (Unit {0}) → Round A
  after_wait failed (fulfilled w) = continues delay
  after_wait failed (rejected r) = failed r

  -- The `catch`; a wait in it that is cut short throws on.
  pub catch_error : Raised → Round A
  catch_error r =
      if t.aborted
      then throws (error (call.aborted_error t.timed_out))
      else (if ltb attempt attempts && (is_abort_error r || is_type_error r)
          then after_wait throws (wait_with_signal delay t.aborted t.fires)
          else throws (as_error call.unknown_error r))

  -- `if (!response.ok)`
  pub on_refusal : ℕ → Settled String → Round A
  on_refusal status (rejected r) = catch_error r
  on_refusal status (fulfilled text) =
      if ltb attempt attempts && is_retryable_http_status status
      then after_wait catch_error (wait_with_signal delay t.aborted_at_wait t.fires)
      else catch_error (error (call.status_error status text))

  pub on_result : Settled A → Round A
  on_result (fulfilled a) = returns a
  on_result (rejected r) = catch_error r

  pub on_payload : Settled (Value N) → Round A
  on_payload (fulfilled payload) = on_result (call.read payload)
  on_payload (rejected r) = catch_error r

  pub on_response : Settled (Response N) → Round A
  on_response (rejected r) = catch_error r
  on_response (fulfilled response) =
      if is_ok response.status
      then on_payload response.json
      else on_refusal response.status response.text

  pub round : Round A
  round = on_response t.fetched

module _ {N A : Type 0} (call : Call N A) (attempts base : ℕ) (tries : ℕ → Try N) where
  -- What the loop gives, and the delays that it waited.
  abbrev pub after_round : Round A → Settled A × List ℕ → Settled A × List ℕ
  after_round (returns a) rest = (fulfilled a, [])
  after_round (throws r) rest = (rejected r, [])
  after_round (continues d) (result, delays) = (result, d ∷ delays)

  -- from an attempt on, with the number of attempts that are left
  pub rounds_from : ℕ → ℕ → Settled A × List ℕ
  rounds_from attempt zero = (rejected (error call.exhausted), [])
  rounds_from attempt (suc left) =
      after_round (round call attempts base attempt (tries attempt))
        (rounds_from (suc attempt) left)

  pub with_retries : Settled A × List ℕ
  with_retries = rounds_from 1 attempts

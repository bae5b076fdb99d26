-- ===== src/Mistral/Settings.antt =====
-- The environment variables of the two clients, and what mistral-shared.ts has on retries.
use Prim.Native.Char.{code}
use Prim.Native.String.{[], ◌∷◌}
use recipe_import_from_anyth.Base.{
  ℕ, zero, suc, ◌+◌, ◌-◌, ◌*◌, ◌/◌, ◌^◌, ◌<◌, ◌≤◌, ◌≡◌, max, Bool, true, false, ◌&&◌, ◌||◌, String,
  Option, none, some, eqb, is_empty, trim, if◌then◌else◌, ℤ, pos, negsuc, parse_int, arith,
}

-- `process.env`
abbrev pub Env : Type 0
Env = String → Option String

-- What a `catch` gets: an `Error` whose name is "AbortError", a `TypeError`, another `Error`, or
-- anything else.
pub data Raised : Type 0 where
  abort_error : String → Raised
  type_error : String → Raised
  error : String → Raised
  non_error : Raised

-- a promise that is settled
pub data Settled {ℓ} (A : Type ℓ) : Type ℓ where
  fulfilled : A → Settled A
  rejected : Raised → Settled A

-- `throw new Error(message)` where there is no result
abbrev pub or_reject {ℓ} : {A : Type ℓ} → String → Option A → Settled A
or_reject message none = rejected (error message)
or_reject message (some a) = fulfilled a

pub is_abort_error : Raised → Bool
is_abort_error (abort_error m) = true
is_abort_error _ = false

abbrev pub is_type_error : Raised → Bool
is_type_error (type_error m) = true
is_type_error _ = false

unfoldable pub is_retryable_http_status : ℕ → Bool
is_retryable_http_status status =
    eqb status 408
    || eqb status 429
    || eqb status 500
    || eqb status 502
    || eqb status 503
    || eqb status 504

-- `below n` is `Math.floor(Math.random() * n)`.
unfoldable pub compute_retry_delay_ms : (ℕ → ℕ) → ℕ → ℕ → ℕ
compute_retry_delay_ms below attempt base = base * 2 ^ (attempt - 1) + below (max 1 (base / 2))

-- `aborted` is what the signal says when the call starts, and `fires` tells whether it fires before
-- the time is over.
unfoldable pub wait_with_signal : ℕ → Bool → Bool → Settled (Unit {0})
wait_with_signal delay aborted fires =
    if eqb delay 0
    then fulfilled tt
    else (if aborted
        then rejected (error "Aborted before retry delay elapsed")
        else (if fires then rejected (error "Aborted during retry delay") else fulfilled tt))

-- `value.replace(/\/+$/, "")`
unfoldable pub sanitize_base_url : String → String
sanitize_base_url [] = []
sanitize_base_url (c ∷ s) =
    let rest = sanitize_base_url s in if eqb (code c) b'/' && is_empty rest then [] else c ∷ rest

-- The text of a variable that is set and is not white space, trimmed.
unfoldable pub configured : Option String → Option String
configured none = none
configured (some v) = let t = trim v in if is_empty t then none else some t

-- a parsed number that is above 0, or the default
abbrev pub positive_or : ℕ → Option ℤ → ℕ
positive_or default (some (pos (suc n))) = suc n
positive_or default _ = default

-- `Math.max(1, parsed)`, or the default where there is no number
abbrev pub at_least_one_or : ℕ → Option ℤ → ℕ
at_least_one_or default none = default
at_least_one_or default (some (pos n)) = max 1 n
at_least_one_or default (some (negsuc n)) = 1

-- `Number.parseInt` of a variable that is set and not empty
unfoldable pub parsed_variable : Option String → Option ℤ
parsed_variable none = none
parsed_variable (some raw) = if is_empty raw then none else parse_int raw

-- mistral-shared.ts's own reader of a whole number
abbrev checked : ℕ → (ℤ → Bool) → Option ℤ → ℤ
checked default valid none = pos default
checked default valid (some n) = if valid n then n else pos default

unfoldable pub resolve_env_int : Env → String → ℕ → (ℤ → Bool) → ℤ
unfolding parsed_variable
resolve_env_int env name default valid = checked default valid (parsed_variable (env name))

-- A time that an environment variable sets is above 0 where its default is.
pub positive_or-bound : (d : ℕ) (v : Option ℤ) → 0 < d → 0 < positive_or d v
positive_or-bound d none h = h
positive_or-bound d (some (pos zero)) h = h
positive_or-bound d (some (pos (suc n))) h = omega arith
positive_or-bound d (some (negsuc n)) h = h

pub at_least_one_or-bound : (d : ℕ) (v : Option ℤ) → 0 < d → 0 < at_least_one_or d v
at_least_one_or-bound d none h = h
at_least_one_or-bound d (some (pos n)) h = omega arith
at_least_one_or-bound d (some (negsuc n)) h = omega arith

-- The delay doubles with each attempt, and the random part adds less than half the base, or 0 or
-- nothing where the base is 1.
pub compute_retry_delay_ms-bounds :
    (below : ℕ → ℕ) (attempt base : ℕ)
    → below (max 1 (base / 2)) < max 1 (base / 2)
    → 0 < base
    → (base * 2 ^ (attempt - 1) ≤ compute_retry_delay_ms below attempt base)
      × (compute_retry_delay_ms below attempt base < base * 2 ^ (attempt - 1) + base)
unfolding compute_retry_delay_ms
compute_retry_delay_ms-bounds below attempt base h p = (omega arith, omega arith)

pub or_reject-fulfilled :
    (m : String) (o : Option String) (a : String) → or_reject m o ≡ fulfilled a → o ≡ some a
or_reject-fulfilled m none a e = cc e
or_reject-fulfilled m (some b) a e = cc e

-- ===== src/Fetching.antt =====
-- src/infrastructure/fetch.ts: requests to the hosts that a policy allows. The host that `URL`
-- reads in an address is an argument, and so is when and with what the platform's `fetch` and the
-- reading of a body settle. The redirects that the platform follows are its own.
mod Examples
use recipe_import_from_anyth.Base.{
  ℕ, ◌≤◌, ◌≡◌, ◌⊎◌, Bool, true, false, ◌||◌, String, ◌==◌, append, Option, none, some, List, [],
  ◌∷◌, leb, if◌then◌else◌, eq_iff,
}
use recipe_import_from_anyth.Base.Map.{Map}
use recipe_import_from_anyth.Effects.{Failure, Outcome, ok, thrown, error}

pub record FetchResult : Type 0 where
  pub html : String
  pub status : ℕ
  pub headers : Map String

-- When the text of a response is there, in milliseconds from the call on, and how its reading ends.
pub data Body : Type 0 where
  read : ℕ → Outcome FetchResult → Body
  stalled : Body

-- When the head of a response comes, or `fetch` fails by itself.
pub data Arrival : Type 0 where
  responds : ℕ → Body → Arrival
  fails : ℕ → Failure → Arrival
  silent : Arrival

abbrev default_timeout_ms : ℕ
default_timeout_ms = 30000

-- `hosts.includes(host)`
pub includes_host : List String → String → Bool
includes_host [] host = false
includes_host (h ∷ hosts) host = if h == host then true else includes_host hosts host

abbrev named_host : List String → Option String → Bool
named_host hosts none = false
named_host hosts (some host) = includes_host hosts host

-- A policy is its `allowedHosts`.
pub is_host_allowed : (String → Option String) → String → Option (List String) → Bool
unfolding includes_host
is_host_allowed hostname url none = false
is_host_allowed hostname url (some hosts) =
    if includes_host hosts "*" then true else named_host hosts (hostname url)

-- When the signal that `fetch` is given fires: a caller's signal, which may never do so, or the
-- function's own controller, which the timer aborts.
abort_time : Option (Option ℕ) → Option ℕ
abort_time none = some default_timeout_ms
abort_time (some fired) = fired

abbrev timed_out : Option (Outcome FetchResult)
timed_out = some (thrown (error "Fetch timeout"))

-- What comes at a time, unless the signal fires before.
unless_aborted : Option ℕ → ℕ → Option (Outcome FetchResult) → Option (Outcome FetchResult)
unless_aborted none t outcome = outcome
unless_aborted (some aborted) t outcome = if leb t aborted then outcome else timed_out

-- Once the head is there the timer is cleared, so that only a caller's signal can still fire.
body_abort_time : Option (Option ℕ) → Option ℕ
body_abort_time none = none
body_abort_time (some fired) = fired

waiting : Option ℕ → Option (Outcome FetchResult)
waiting none = none
waiting (some aborted) = timed_out

-- `await response.text()`
read_body : Option ℕ → Body → Option (Outcome FetchResult)
unfolding waiting unless_aborted
read_body aborted (read t outcome) = unless_aborted aborted t (some outcome)
read_body aborted stalled = waiting aborted

-- what the call ends with, if it ever ends
pub run_fetch : Option (Option ℕ) → Arrival → Option (Outcome FetchResult)
unfolding abort_time body_abort_time unless_aborted waiting read_body
run_fetch signal (responds t body) =
    unless_aborted (abort_time signal) t (read_body (body_abort_time signal) body)
run_fetch signal (fails t f) = unless_aborted (abort_time signal) t (some (thrown f))
run_fetch signal silent = waiting (abort_time signal)

-- `fetch` of a client with a policy: what it ends with, and the addresses that are given to
-- the platform's `fetch`
pub fetch :
    (String → Option String)
    → Option (List String)
    → String
    → Option (Option ℕ)
    → Arrival
    → Option (Outcome FetchResult) × List String
unfolding is_host_allowed run_fetch
fetch hostname policy url signal arrival =
    let asked = run_fetch signal arrival in
    if is_host_allowed hostname url policy
    then (asked, url ∷ [])
    else (some (thrown (error (append "Network access denied for host: " url))), [])

-- A call never ends: no head comes and the caller has a signal that never fires, or the text of the
-- response never comes and there is no such signal or it never fires. Without a signal the head
-- came within 30 seconds.
pub data Hangs : Option (Option ℕ) → Arrival → Type 0 where
  no_head : Hangs (some none) silent
  no_text : (t : ℕ) → Hangs (some none) (responds t stalled)
  no_timer : (t : ℕ) → t ≤ 30000 → Hangs none (responds t stalled)

module _ (hostname : String → Option String) where
  -- An address that a policy lets through: one whose host it names, or any where it has "*".
  abbrev pub IsAllowed : Option (List String) → String → Type 0
  IsAllowed none url = ⊥
  IsAllowed (some hosts) url =
      (includes_host hosts "*" ≡ true)
      ⊎ ((host : String) × (hostname url ≡ some host) × (includes_host hosts host ≡ true))

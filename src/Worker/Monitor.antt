-- ===== src/Worker/Monitor.antt =====
-- `startCancellationMonitor` and `forwardSignal` of src/worker/processor.ts: a timer asks the queue
-- whether the job has been canceled. `asking` counts the questions that have no answer yet.
use recipe_import_from_anyth.Base.{
  ℕ, ◌+◌, ◌-◌, ◌≤◌, ◌≡◌, refl, Bool, true, false, ◌||◌, Bool-cases, inl, inr, List, [], ◌∷◌, eqb,
  if◌then◌else◌, arith,
}

pub record Monitor : Type 0 where
  pub stopped : Bool
  pub in_flight : Bool
  pub aborted : Bool
  pub asking : ℕ

-- The timer's tick (or the first check), the queue's answer or its failure, BullMQ's own signal,
-- and the call of `stop` at the end of the job.
pub data MonitorEvent : Type 0 where
  tick : MonitorEvent
  answered : Bool → MonitorEvent
  failed : MonitorEvent
  source_aborted : MonitorEvent
  stop : MonitorEvent

-- `controller.abort()`, whose listener is `stop`
abbrev abort : Monitor → Monitor
abort m = record m { aborted = true; stopped = true }

abbrev finally : Monitor → Monitor
finally m = record m { in_flight = false; asking = m.asking - 1 }

-- An answer or a failure comes where a question waits for one.
pub step : Monitor → MonitorEvent → Monitor
step m tick =
    if m.stopped || m.in_flight || m.aborted
    then m
    else record m { in_flight = true; asking = m.asking + 1 }
step m (answered canceled) =
    if eqb m.asking 0 then m else (if canceled then finally (abort m) else finally m)
step m failed = if eqb m.asking 0 then m else finally m
step m source_aborted = abort m
step m stop = record m { stopped = true }

pub steps : Monitor → List MonitorEvent → Monitor
steps m [] = m
steps m (e ∷ events) = steps (step m e) events

-- `forwardSignal` may find BullMQ's signal already fired.
abbrev pub initial : Bool → Monitor
initial aborted = record { stopped = false; in_flight = false; aborted = aborted; asking = 0 }

-- At most one question waits, one exactly while `inFlight` is set.
abbrev waiting : Bool → ℕ
waiting true = 1
waiting false = 0

abbrev pub IsMonitor : Monitor → Type 0
IsMonitor m = m.asking ≡ waiting m.in_flight

waiting-le : (b : Bool) → waiting b ≤ 1
waiting-le true = omega arith
waiting-le false = omega arith

or_true : (a b c : Bool) → c ≡ true → a || b || c ≡ true
or_true a b c h = ground (arith, h)

step-IsMonitor : (m : Monitor) (e : MonitorEvent) → IsMonitor m → IsMonitor (step m e)
unfolding step
step-IsMonitor m tick h = elim (Bool-cases (m.stopped || m.in_flight || m.aborted)) [
  | inl idle ↦ rw idle h
  | inr asks ↦ ground (arith, h, asks)
]
step-IsMonitor m (answered true) h = ground (arith, h, waiting-le m.in_flight)
step-IsMonitor m (answered false) h = ground (arith, h, waiting-le m.in_flight)
step-IsMonitor m failed h = ground (arith, h, waiting-le m.in_flight)
step-IsMonitor m source_aborted h = h
step-IsMonitor m stop h = h

-- the events that abort the controller
abbrev pub is_cause : MonitorEvent → Bool
is_cause (answered canceled) = canceled
is_cause source_aborted = true
is_cause _ = false

abbrev pub any_cause : List MonitorEvent → Bool
any_cause [] = false
any_cause (e ∷ events) = is_cause e || any_cause events

step-aborted :
    (m : Monitor) (e : MonitorEvent) → (step m e).aborted ≡ true → m.aborted || is_cause e ≡ true
unfolding step
step-aborted m tick h = ground (arith, h)
step-aborted m (answered true) h = ground arith
step-aborted m (answered false) h = ground (arith, h)
step-aborted m failed h = ground (arith, h)
step-aborted m source_aborted h = ground arith
step-aborted m stop h = ground (arith, h)

steps-aborted :
    (m : Monitor) (events : List MonitorEvent)
    → (steps m events).aborted ≡ true
    → m.aborted || any_cause events ≡ true
unfolding steps
steps-aborted m [] h = ground (arith, h)
steps-aborted m (e ∷ events) h = ground (arith, steps-aborted (step m e) events h, step-aborted m e)

-- After the signal has fired, it stays so, and no question is asked.
abbrev pub Over : Monitor → Monitor → Type 0
Over m n = (n.aborted ≡ true) × (n.asking ≤ m.asking)

step-Over : (m : Monitor) (e : MonitorEvent) → m.aborted ≡ true → Over m (step m e)
unfolding step
step-Over m tick h = rw (or_true m.stopped m.in_flight m.aborted h) (h, omega arith)
step-Over m (answered true) h = ground (arith, h)
step-Over m (answered false) h = ground (arith, h)
step-Over m failed h = ground (arith, h)
step-Over m source_aborted h = (refl, omega arith)
step-Over m stop h = (h, omega arith)

steps-Over : (m : Monitor) (events : List MonitorEvent) → m.aborted ≡ true → Over m (steps m events)
unfolding steps
steps-Over m [] h = (h, omega arith)
steps-Over m (e ∷ events) h =
    let (gone, fewer) = step-Over m e h in
    let (last, least) = steps-Over (step m e) events gone in (last, omega arith)

steps-IsMonitor :
    (m : Monitor) (events : List MonitorEvent) → IsMonitor m → IsMonitor (steps m events)
unfolding steps
steps-IsMonitor m [] h = h
steps-IsMonitor m (e ∷ events) h = steps-IsMonitor (step m e) events (step-IsMonitor m e h)

found-aborted :
    (m : Monitor) → IsMonitor m → m.in_flight ≡ true → (step m (answered true)).aborted ≡ true
unfolding step
found-aborted m h f = ground (arith, h, f)

-- After any events from the start of a job whose signal has not fired yet: at most one question
-- waits for the queue's answer; the job's signal has fired only if the queue has answered that the
-- job is canceled, or BullMQ's signal has fired; where a question waits, that answer makes it fire;
-- and once it has fired, it stays so, and no further question is asked.
pub steps-initial :
    (events : List MonitorEvent)
    → let m = steps (initial false) events in
      (m.asking ≤ 1)
      × (m.aborted ≡ true → any_cause events ≡ true)
      × (m.in_flight ≡ true → (step m (answered true)).aborted ≡ true)
      × (m.aborted ≡ true → (later : List MonitorEvent) → Over m (steps m later))
steps-initial events =
    let kept = steps-IsMonitor (initial false) events refl in
    let m = steps (initial false) events in
    (
      omega (arith, kept, waiting-le m.in_flight),
      steps-aborted (initial false) events,
      found-aborted m kept,
      λ h later. steps-Over m later h,
    )

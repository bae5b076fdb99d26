-- ===== src/Events/Bridge.antt =====
-- src/infrastructure/bullmq/queue-events-bridge.ts: which functions are called for a job's events.
pub mod Callbacks
use recipe_import_from_anyth.Base.{
  ℕ, ◌≡◌, Bool, not, String, ◌==◌, Option, none, some, List, [], ◌∷◌, ◌++◌, map, eqb, if◌then◌else◌,
  filter_by, arith, eq_iff, Option-cases, inl, inr,
}
use recipe_import_from_anyth.Base.Map
use recipe_import_from_anyth.Base.Map.{Map, get-set, get-delete}
use recipe_import_from_anyth.Ids.{JobId, UserId}

-- A callback `send`: JavaScript tells functions apart by identity, here a serial number. The two
-- other fields are what the function has closed over, its connection and its job.
pub record Sender : Type 0 where
  pub serial : ℕ
  pub connection : ℕ
  pub job : String

pub record Subscription : Type 0 where
  pub user_id : UserId
  pub send : Sender

-- `new Set` of subscriptions: each is a new object, so none is ever equal to another.
abbrev pub Bridge : Type 0
Bridge = Map (List Subscription)

-- The subscriptions of a job, none where the map has no entry.
abbrev listed : Option (List Subscription) → List Subscription
listed none = []
listed (some subs) = subs

unfoldable pub subscriptions : String → Bridge → List Subscription
subscriptions job b = listed (Map.get job b)

unfoldable pub add_subscription : JobId → UserId → Sender → Bridge → Bridge
unfolding subscriptions
add_subscription job user send b =
    Map.set job.value (subscriptions job.value b ++ record { user_id = user; send = send } ∷ []) b

-- `send ? sub.send !== send : !sub.userId.equals(userId)`
abbrev stays : UserId → Option Sender → Subscription → Bool
stays user none sub = not (sub.user_id.value == user.value)
stays user (some send) sub = not (eqb sub.send.serial send.serial)

-- An empty set is taken out of the map.
store_rest : String → List Subscription → Bridge → Bridge
store_rest key [] b = Map.delete key b
store_rest key (sub ∷ subs) b = Map.set key (sub ∷ subs) b

remove_from : String → UserId → Option Sender → Option (List Subscription) → Bridge → Bridge
remove_from key user send none b = b
remove_from key user send (some existing) b =
    store_rest key (filter_by (stays user send) existing) b

pub remove_subscription : JobId → UserId → Option Sender → Bridge → Bridge
remove_subscription job user send b = remove_from job.value user send (Map.get job.value b) b

pub remove_all_subscriptions : JobId → Bridge → Bridge
remove_all_subscriptions job b = Map.delete job.value b

-- `dispatch` calls these functions with the event, in this order.
unfoldable pub dispatch : String → Bridge → List Sender
dispatch job b = map (λ sub. sub.send) (subscriptions job b)

pub subscriptions-add :
    (j : String) (job : JobId) (user : UserId) (send : Sender) (b : Bridge)
    → subscriptions j (add_subscription job user send b) ≡ (
        if job.value == j
        then subscriptions job.value b ++ record { user_id = user; send = send } ∷ []
        else subscriptions j b)
unfolding subscriptions add_subscription
subscriptions-add j job user send b = ground (
  arith,
  get-set j job.value (subscriptions job.value b ++ record { user_id = user; send = send } ∷ []) b,
)

listed-store_rest :
    (j key : String) (rest : List Subscription) (b : Bridge)
    → listed (Map.get j (store_rest key rest b)) ≡ (if key == j then rest else listed (Map.get j b))
unfolding store_rest
listed-store_rest j key [] b = ground (arith, get-delete j key b)
listed-store_rest j key (sub ∷ subs) b = ground (arith, get-set j key (sub ∷ subs) b)

-- Removing takes out the subscriptions with that function, or without one all of the user's, and
-- leaves every other job's alone.
pub subscriptions-remove :
    (j : String) (job : JobId) (user : UserId) (send : Option Sender) (b : Bridge)
    → subscriptions j (remove_subscription job user send b) ≡ (
        if job.value == j
        then filter_by (stays user send) (subscriptions job.value b)
        else subscriptions j b)
unfolding subscriptions remove_subscription remove_from
subscriptions-remove j job user send b = elim (Option-cases (Map.get job.value b)) [
  | inl absent ↦ ground (arith, eq_iff job.value j)
  | inr (existing, found) ↦
      rw (found, remove_subscription)
        (listed-store_rest j job.value (filter_by (stays user send) existing) b)
]

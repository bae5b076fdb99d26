-- ===== src/Events/Socket/Examples.antt =====
-- The theorems of the WebSocket connections at a client that subscribes to a job.
use recipe_import_from_anyth.Base.{
  ◌≡◌, ◌↔◌, refl, true, not, ◌&&◌, ◌||◌, ◌==◌, some, List, [], ◌∷◌, is_some,
}
use mathlib.Core.List.{Memᴰ}
use recipe_import_from_anyth.Base.Map
use recipe_import_from_anyth.Base.Map.{get, set}
use recipe_import_from_anyth.Ids.{UserId}
use recipe_import_from_anyth.Events.Socket.{
  is_open, Event, opened, message, authenticated, subscribe, unsubscribe, run, step, start,
  on_message, on_authenticated, handle_from, handle_for, add_sender, deliver,
}
use recipe_import_from_anyth.Events.Socket.Consistent.{IsConsistent}
use recipe_import_from_anyth.Events.Socket.Delivery.{run-IsConsistent, deliver_iff}
use recipe_import_from_anyth.Events.Socket.Messages.{holds, on_message-holds}

abbrev alice : UserId
alice = record { value = "alice" }

abbrev events : List Event
events = opened ∷ authenticated 0 (some alice) ∷ message 0 (some (subscribe "j1")) ∷ []

run-IsConsistent_example : IsConsistent (run start events)
run-IsConsistent_example = run-IsConsistent events

deliver_iff_example : Memᴰ 0 (deliver (run start events) "j1") ↔ (
    (is_open ((run start events).connections 0).state ≡ true)
    × (is_some (Map.get "j1" ((run start events).connections 0).subscriptions) ≡ true))
deliver_iff_example = deliver_iff events "j1" 0

named : ((run start events).connections 0).user_id ≡ some alice
unfolding run step on_message on_authenticated handle_from handle_for add_sender get
named = refl

on_message-holds_example :
    (holds (on_message (run start events) 0 (some (subscribe "j2"))).0 0 "j1"
      ≡ ("j2" == "j1" || holds (run start events) 0 "j1"))
    × (holds (on_message (run start events) 0 (some (unsubscribe "j2"))).0 0 "j1"
        ≡ (not ("j2" == "j1") && holds (run start events) 0 "j1"))
on_message-holds_example = on_message-holds (run start events) 0 alice named "j2" "j1"

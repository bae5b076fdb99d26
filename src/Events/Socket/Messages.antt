-- ===== src/Events/Socket/Messages.antt =====
-- Which jobs a connection holds callbacks for, after a message.
use recipe_import_from_anyth.Base.{
  ℕ, ◌≡◌, refl, Bool, not, ◌&&◌, ◌||◌, String, ◌==◌, Option, none, some, is_some, arith, eq_iff,
}
use recipe_import_from_anyth.Base.Map
use recipe_import_from_anyth.Base.Map.{Map, get-set, get-delete}
use recipe_import_from_anyth.Ids.{UserId}
use recipe_import_from_anyth.Events.Bridge.{Sender}
use recipe_import_from_anyth.Events.Socket.{
  Server, subscribe, unsubscribe, on_message, handle_from, handle_for, add_sender, remove_entry,
}

-- whether a connection holds a callback for a job
abbrev pub holds : Server → ℕ → String → Bool
holds s c job = is_some (Map.get job (s.connections c).subscriptions)

module _ (s : Server) (c : ℕ) (user : UserId) (named : (s.connections c).user_id ≡ some user)
    (job j : String) where
  add_sender-holds :
      (old : Option Sender)
      → Map.get job (s.connections c).subscriptions ≡ old
      → holds (add_sender s c (s.connections c) user job old) c j ≡ (job == j || holds s c j)
  unfolding add_sender
  add_sender-holds (some send) e = ground (arith, eq_iff job j)
  add_sender-holds none e = ground (
    arith,
    get-set j job (record { serial = s.next_serial; connection = c; job = job })
        (s.connections c).subscriptions,
  )

  -- After "subscribe" a connection with a user holds a callback for that job and for those it held
  -- before; after "unsubscribe", for those it held before other than that job.
  pub on_message-holds :
      (holds (on_message s c (some (subscribe job))).0 c j ≡ (job == j || holds s c j))
      × (holds (on_message s c (some (unsubscribe job))).0 c j ≡ (not (job == j) && holds s c j))
  unfolding on_message handle_from handle_for remove_entry
  on_message-holds = (
    rw (named, handle_from) (add_sender-holds _ refl),
    rw (named, handle_from) (ground (arith, get-delete j job (s.connections c).subscriptions)),
  )

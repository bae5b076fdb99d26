-- ===== src/Events/Socket/Consistent.antt =====
-- Every event of a socket keeps the server consistent.
use mathlib.Core.Path.{fun_ext}
use recipe_import_from_anyth.Base.{
  ℕ, suc, ◌≤◌, ◌≡◌, inl, inr, refl, sym, ap, subst, ◌∙◌, false, String, Option, none, some, [], eqb,
  if◌then◌else◌, arith, Bool-cases,
}
use recipe_import_from_anyth.Base.Map
use recipe_import_from_anyth.Base.Map.{Map}
use recipe_import_from_anyth.Base.Map.Entries.{delete_absent}
use recipe_import_from_anyth.Ids.{UserId}
use recipe_import_from_anyth.Events.Bridge.{Sender, Bridge}
use recipe_import_from_anyth.Events.Socket.{
  closed_state, is_closed, close_socket, WebSocketConnection, WsMessage, auth, ping, subscribe,
  unsubscribe, Server, update, add_sender, remove_sender, remove_entry, handle_for, handle_from,
  on_message, cleanup_bridge, on_close, on_authenticated, Event, opened, message, authenticated,
  closed, fresh_connection, step,
}
use recipe_import_from_anyth.Events.Socket.Invariant.{Held, put, IsLinked}
use recipe_import_from_anyth.Events.Socket.Invariant.Steps.{add-IsLinked}
use recipe_import_from_anyth.Events.Socket.Invariant.Removal.{unsubscribe-IsLinked}
use recipe_import_from_anyth.Events.Socket.Invariant.Closing.{close-IsLinked}

abbrev pub held_by : (ℕ → WebSocketConnection) → Held
held_by connections c = (connections c).subscriptions

-- The connections and the bridge are linked, and a connection without a user, one that is closed
-- and one that was never opened hold no callback.
pub record IsConsistent (s : Server) : Type 0 where
  pub linked : IsLinked (held_by s.connections) s.bridge s.next_serial
  pub anonymous : (c : ℕ) → (s.connections c).user_id ≡ none → (s.connections c).subscriptions ≡ []
  pub shut : (c : ℕ) → (s.connections c).state ≡ closed_state → (s.connections c).subscriptions ≡ []
  pub unopened : (c : ℕ) → s.next_connection ≤ c → (s.connections c).state ≡ closed_state

field-update :
    (connections : ℕ → WebSocketConnection) (c : ℕ) (conn : WebSocketConnection) (d : ℕ)
    → (update connections c conn d).subscriptions
      ≡ (if eqb c d then conn.subscriptions else (connections d).subscriptions)
field-update connections c conn d = ground arith

held_by-update :
    (connections : ℕ → WebSocketConnection) (c : ℕ) (conn : WebSocketConnection)
    → held_by (update connections c conn) ≡ put (held_by connections) c conn.subscriptions
held_by-update connections c conn = fun_ext (field-update connections c conn)

put_self : (held : Held) (c : ℕ) → put held c (held c) ≡ held
put_self held c = fun_ext (λ d. ground arith)

module _ (s : Server) (ok : IsConsistent s) (c : ℕ) where
  -- A change of one connection, of the bridge and of the counters.
  change-IsConsistent :
      (conn : WebSocketConnection) (b : Bridge) (count next : ℕ)
      → IsLinked (put (held_by s.connections) c conn.subscriptions) b next
      → (conn.user_id ≡ none → conn.subscriptions ≡ [])
      → (conn.state ≡ closed_state → conn.subscriptions ≡ [])
      → s.next_connection ≤ count
      → (count ≤ c → conn.state ≡ closed_state)
      → IsConsistent (record {
        connections = update s.connections c conn;
        bridge = b;
        next_connection = count;
        next_serial = next;
      })
  change-IsConsistent conn b count next linked anonymous shut more unopened = record {
    linked =
        subst (λ held. IsLinked held b next) (sym (held_by-update s.connections c conn)) linked;
    anonymous = λ d. elim (Bool-cases (eqb c d)) [
      | inl same ↦ rw same anonymous
      | inr other ↦ rw other (ok.anonymous d)
    ];
    shut = λ d. elim (Bool-cases (eqb c d)) [
      | inl same ↦ rw same shut
      | inr other ↦ rw other (ok.shut d)
    ];
    unopened = λ d h. elim (Bool-cases (eqb c d)) [
      | inl same ↦ rw same (unopened (ground arith))
      | inr other ↦ rw other (ok.unopened d (omega (arith, h, more)))
    ];
  }

  -- A change of a connection that leaves its callbacks alone.
  same-IsLinked :
      (m : Map Sender)
      → m ≡ (s.connections c).subscriptions
      → IsLinked (put (held_by s.connections) c m) s.bridge s.next_serial
  same-IsLinked m e =
      subst (λ held. IsLinked held s.bridge s.next_serial)
        (sym (ap (put (held_by s.connections) c) e ∙ put_self (held_by s.connections) c)) ok.linked

  on_authenticated-IsConsistent :
      (user : Option UserId) → IsConsistent (on_authenticated s c user).0
  unfolding on_authenticated
  on_authenticated-IsConsistent none =
      change-IsConsistent
        (record (s.connections c) { state = close_socket (s.connections c).state }) s.bridge
        s.next_connection s.next_serial (same-IsLinked _ refl) (ok.anonymous c)
        (λ h. ok.shut c (ground arith)) (omega arith) (λ h. rw (ok.unopened c h) refl)
  on_authenticated-IsConsistent (some user) =
      change-IsConsistent (record (s.connections c) { user_id = some user }) s.bridge
        s.next_connection s.next_serial (same-IsLinked _ refl) (λ h. cc) (ok.shut c) (omega arith)
        (ok.unopened c)

  cleanup-IsLinked :
      (user : Option UserId)
      → (s.connections c).user_id ≡ user
      → IsLinked
          (put (held_by s.connections) c [])
          (cleanup_bridge user (s.connections c).subscriptions s.bridge)
          s.next_serial
  unfolding cleanup_bridge
  cleanup-IsLinked none e = same-IsLinked [] (sym (ok.anonymous c e))
  cleanup-IsLinked (some user) e =
      close-IsLinked (held_by s.connections) s.bridge s.next_serial ok.linked c user

  on_close-IsConsistent : IsConsistent (on_close s c)
  unfolding on_close
  on_close-IsConsistent =
      change-IsConsistent (record (s.connections c) { state = closed_state; subscriptions = [] })
        (cleanup_bridge (s.connections c).user_id (s.connections c).subscriptions s.bridge)
        s.next_connection s.next_serial (cleanup-IsLinked (s.connections c).user_id refl)
        (λ h. refl) (λ h. refl) (omega arith) (λ h. refl)

  module _ (alive : is_closed (s.connections c).state ≡ false) (user : UserId)
      (named : (s.connections c).user_id ≡ some user) where
    -- A change of the callbacks of a connection that has a user and is not closed.
    resubscribed-IsConsistent :
        (m : Map Sender) (b : Bridge) (next : ℕ)
        → IsLinked (put (held_by s.connections) c m) b next
        → IsConsistent (record {
          connections = update s.connections c (record (s.connections c) { subscriptions = m });
          bridge = b;
          next_connection = s.next_connection;
          next_serial = next;
        })
    resubscribed-IsConsistent m b next linked =
        change-IsConsistent (record (s.connections c) { subscriptions = m }) b s.next_connection
          next linked (λ h. cc) (λ h. absurd (ground arith)) (omega arith) (ok.unopened c)

    add_sender-IsConsistent :
        (job : String) (old : Option Sender)
        → Map.get job (s.connections c).subscriptions ≡ old
        → IsConsistent (add_sender s c (s.connections c) user job old)
    unfolding add_sender
    add_sender-IsConsistent job (some send) e = ok
    add_sender-IsConsistent job none e =
        resubscribed-IsConsistent _ _ (suc s.next_serial)
          (add-IsLinked (held_by s.connections) s.bridge s.next_serial ok.linked c job user e)

    remove_sender-IsLinked :
        (job : String) (old : Option Sender)
        → Map.get job (s.connections c).subscriptions ≡ old
        → IsLinked
            (put (held_by s.connections) c (Map.delete job (s.connections c).subscriptions))
            (remove_sender s.bridge user job old)
            s.next_serial
    unfolding remove_sender
    remove_sender-IsLinked job none e = same-IsLinked _ (delete_absent job _ e)
    remove_sender-IsLinked job (some send) e =
        unsubscribe-IsLinked (held_by s.connections) s.bridge s.next_serial ok.linked c job user
          send e

    handle_for-IsConsistent :
        (m : WsMessage) → IsConsistent (handle_for s c (s.connections c) user m).0
    unfolding handle_for remove_entry
    handle_for-IsConsistent auth = ok
    handle_for-IsConsistent ping = ok
    handle_for-IsConsistent (subscribe job) = add_sender-IsConsistent job _ refl
    handle_for-IsConsistent (unsubscribe job) =
        resubscribed-IsConsistent _ _ s.next_serial (remove_sender-IsLinked job _ refl)

  handle_from-IsConsistent :
      (user : Option UserId) (m : WsMessage)
      → is_closed (s.connections c).state ≡ false
      → (s.connections c).user_id ≡ user
      → IsConsistent (handle_from s c (s.connections c) user m).0
  unfolding handle_from
  handle_from-IsConsistent none auth alive e = ok
  handle_from-IsConsistent none _ alive e = ok
  handle_from-IsConsistent (some user) m alive e = handle_for-IsConsistent alive user e m

  on_message-IsConsistent :
      (m : Option WsMessage)
      → is_closed (s.connections c).state ≡ false
      → IsConsistent (on_message s c m).0
  unfolding on_message
  on_message-IsConsistent none alive = ok
  on_message-IsConsistent (some m) alive =
      handle_from-IsConsistent (s.connections c).user_id m alive refl

opened-IsConsistent : (s : Server) → IsConsistent s → IsConsistent (step s opened)
unfolding step
opened-IsConsistent s ok =
    let c = s.next_connection in
    change-IsConsistent s ok c fresh_connection s.bridge (suc c) s.next_serial
      (same-IsLinked s ok c [] (sym (ok.shut c (ok.unopened c (omega arith))))) (λ h. refl)
      (λ h. cc) (omega arith) (λ h. absurd (omega (arith, h)))

pub step-IsConsistent : (s : Server) (e : Event) → IsConsistent s → IsConsistent (step s e)
unfolding step
step-IsConsistent s opened ok = opened-IsConsistent s ok
step-IsConsistent s (message c m) ok = elim (Bool-cases (is_closed (s.connections c).state)) [
  | inl gone ↦ rw gone ok
  | inr alive ↦ rw alive (on_message-IsConsistent s ok c m alive)
]
step-IsConsistent s (authenticated c user) ok = on_authenticated-IsConsistent s ok c user
step-IsConsistent s (closed c) ok = on_close-IsConsistent s ok c

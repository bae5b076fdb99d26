-- ===== src/Events/Socket.antt =====
-- src/api/setup-ws.ts: the WebSocket connections of the server, as a machine that takes one event
-- at a time. An awaited authentication and an awaited snapshot are events of their own; parsing
-- has turned a text into a message, or failed.
pub mod Invariant
pub mod Consistent
pub mod Delivery
pub mod Messages
mod Examples
use recipe_import_from_anyth.Base.{
  ℕ, suc, ◌≡◌, refl, Bool, true, false, not, ◌&&◌, String, ◌==◌, Option, none, some, List, [], ◌∷◌,
  eqb, if◌then◌else◌, is_some,
}
use recipe_import_from_anyth.Base.Map
use recipe_import_from_anyth.Base.Map.{Map}
use recipe_import_from_anyth.Ids.{JobId, UserId}
use recipe_import_from_anyth.Events.Bridge.{
  Sender, Bridge, add_subscription, remove_subscription, dispatch,
}

-- `socket.readyState`
pub data ReadyState : Type 0 where
  open_state closing_state closed_state : ReadyState

pub record WebSocketConnection : Type 0 where
  pub user_id : Option UserId
  pub state : ReadyState
  pub subscriptions : Map Sender

pub data WsMessage : Type 0 where
  auth ping : WsMessage
  subscribe unsubscribe : String → WsMessage

-- What a client is sent: the data of `formatSuccess`, or a code of `formatError`.
pub data Sent : Type 0 where
  auth_success pong : Sent
  subscribed unsubscribed : String → Sent
  error : String → Sent

-- The connections by their ids, the bridge, and the next id of a connection and of a callback:
-- these are counted, where the source draws a random id and makes a new function.
pub record Server : Type 0 where
  pub connections : ℕ → WebSocketConnection
  pub bridge : Bridge
  pub next_connection : ℕ
  pub next_serial : ℕ

abbrev pub update : (ℕ → WebSocketConnection) → ℕ → WebSocketConnection → ℕ → WebSocketConnection
update connections c conn d = if eqb c d then conn else connections d

abbrev pub with_connection : Server → ℕ → WebSocketConnection → Server
with_connection s c conn = record s { connections = update s.connections c conn }

abbrev pub is_open : ReadyState → Bool
is_open open_state = true
is_open _ = false

abbrev pub is_closed : ReadyState → Bool
is_closed closed_state = true
is_closed _ = false

-- `socket.close()`: the close event follows later.
abbrev pub close_socket : ReadyState → ReadyState
close_socket open_state = closing_state
close_socket state = state

-- `sendJson` sends nothing on a socket that is not open.
send_json : WebSocketConnection → Sent → List Sent
send_json conn message = if is_open conn.state then message ∷ [] else []

abbrev job_id : String → JobId
job_id job = record { value = job }

-- the first branch of "subscribe": a new callback, unless the job has one already
add_sender : Server → ℕ → WebSocketConnection → UserId → String → Option Sender → Server
add_sender s c conn user job (some send) = s
add_sender s c conn user job none =
    let send : Sender = record { serial = s.next_serial; connection = c; job = job } in
    record {
      connections =
          update s.connections c
            (record conn { subscriptions = Map.set job send conn.subscriptions });
      bridge = add_subscription (job_id job) user send s.bridge;
      next_connection = s.next_connection;
      next_serial = suc s.next_serial;
    }

-- the call of `removeSubscription` in "unsubscribe"
remove_sender : Bridge → UserId → String → Option Sender → Bridge
remove_sender b user job none = b
remove_sender b user job (some send) = remove_subscription (job_id job) user (some send) b

remove_entry : Server → ℕ → WebSocketConnection → UserId → String → Server
remove_entry s c conn user job = record s {
  connections =
      update s.connections c (record conn { subscriptions = Map.delete job conn.subscriptions });
  bridge = remove_sender s.bridge user job (Map.get job conn.subscriptions);
}

handle_for : Server → ℕ → WebSocketConnection → UserId → WsMessage → Server × List Sent
handle_for s c conn user auth = (s, [])
handle_for s c conn user ping = (s, send_json conn pong)
handle_for s c conn user (subscribe job) =
    (add_sender s c conn user job (Map.get job conn.subscriptions), send_json conn (subscribed job))
handle_for s c conn user (unsubscribe job) =
    (remove_entry s c conn user job, send_json conn (unsubscribed job))

-- Before the connection has a user, only "auth" is taken: its answer is an event of its own.
handle_from : Server → ℕ → WebSocketConnection → Option UserId → WsMessage → Server × List Sent
handle_from s c conn none auth = (s, [])
handle_from s c conn none message = (s, send_json conn (error "UNAUTHORIZED"))
handle_from s c conn (some user) message = handle_for s c conn user message

-- `socket.on("message")`, where `none` is a message that does not parse
pub on_message : Server → ℕ → Option WsMessage → Server × List Sent
on_message s c none = (s, send_json (s.connections c) (error "INVALID_MESSAGE"))
on_message s c (some message) = handle_from s c (s.connections c) (s.connections c).user_id message

-- `cleanupConnection`: the loop over the connection's entries
pub remove_each : UserId → Map Sender → Bridge → Bridge
remove_each user [] b = b
remove_each user ((job, send) ∷ entries) b =
    remove_each user entries (remove_subscription (job_id job) user (some send) b)

cleanup_bridge : Option UserId → Map Sender → Bridge → Bridge
cleanup_bridge none entries b = b
cleanup_bridge (some user) entries b = remove_each user entries b

pub on_close : Server → ℕ → Server
on_close s c =
    let conn = s.connections c in
    record s {
      connections =
          update s.connections c (record conn { state = closed_state; subscriptions = [] });
      bridge = cleanup_bridge conn.user_id conn.subscriptions s.bridge;
    }

-- The answer of the awaited `authPort.authenticate`: a user, or an error, on which the socket is
-- closed. The close event that follows is one of its own.
pub on_authenticated : Server → ℕ → Option UserId → Server × List Sent
on_authenticated s c (some user) =
    let conn = s.connections c in
    (with_connection s c (record conn { user_id = some user }), send_json conn auth_success)
on_authenticated s c none =
    let conn = s.connections c in
    (
      with_connection s c (record conn { state = close_socket conn.state }),
      send_json conn (error "UNAUTHORIZED"),
    )

pub data Event : Type 0 where
  opened : Event
  message : ℕ → Option WsMessage → Event
  authenticated : ℕ → Option UserId → Event
  closed : ℕ → Event

abbrev fresh_connection : WebSocketConnection
fresh_connection = record { user_id = none; state = open_state; subscriptions = [] }

-- After its close event a socket gives no message.
pub step : Server → Event → Server
step s opened = record (with_connection s s.next_connection fresh_connection) {
  next_connection = suc s.next_connection;
}
step s (message c m) = if is_closed (s.connections c).state then s else (on_message s c m).0
step s (authenticated c user) = (on_authenticated s c user).0
step s (closed c) = on_close s c

pub run : Server → List Event → Server
run s [] = s
run s (e ∷ events) = run (step s e) events

abbrev pub start : Server
start = record {
  connections = λ c. record { user_id = none; state = closed_state; subscriptions = [] };
  bridge = [];
  next_connection = 0;
  next_serial = 0;
}

-- Who is sent an event of a job: the callbacks that the bridge calls, each of which checks that its
-- connection still has the job, and that the socket is open.
receives : Server → Sender → Bool
receives s send =
    is_some (Map.get send.job (s.connections send.connection).subscriptions)
    && is_open (s.connections send.connection).state

deliver_to : Server → List Sender → List ℕ
deliver_to s [] = []
deliver_to s (send ∷ sends) =
    let rest = deliver_to s sends in if receives s send then send.connection ∷ rest else rest

pub deliver : Server → String → List ℕ
deliver s job = deliver_to s (dispatch job s.bridge)

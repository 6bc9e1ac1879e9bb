-- ===== src/Ipc.antt =====
-- internal/ipc/server.go: the server and its clients. A client is an object of the heap, which the map
-- of clients, and the goroutines of the connection, point to. `bytes` is what json.Marshal gives, a
-- handler is a number, and the order in which `range` visits the clients is a list of their ids. The
-- socket itself is left out: an accepted connection, and the end of one, are calls.
pub mod Closing
pub mod Sending
mod Examples
use go_control.Prelude.{
  ℕ, String, Bool, true, false, not, Option, none, some, List, [], ◌∷◌, ◌⊎◌, inl, inr,
  if◌then◌else◌, update,
}
use go_control.GoMap
use go_control.GoMap.{GoMap}
use go_control.Outcome.{Outcome, returns, panics, and_then}
use go_control.Channel.{Channel, Send, delivered, full, panicked, make, try_send, receive, close}
use go_control.Nodes.{Table}

-- types.IPCMessage; its `Data` is a table.
pub record IpcMessage : Type 0 where
  pub kind : String
  pub source : String
  pub target : String
  pub payload : Table
  pub timestamp : ℕ
  pub id : String

-- `closing` is whether `closeOnce` has run or runs, `closed` whether the channel of that name is closed.
pub record Client : Type 0 where
  pub id : String
  pub send : Channel (List ℕ)
  pub active : Bool
  pub closing : Bool
  pub closed : Bool

pub record IpcServer : Type 0 where
  pub buffer_size : ℕ
  pub heap : ℕ → Client
  pub clients : GoMap ℕ
  pub handlers : GoMap ℕ
  pub cancelled : Bool

pub data IpcError : Type 0 where
  marshal_failed client_not_found client_not_active client_closed send_timeout : String → IpcError

unfoldable pub new_ipc_server : ℕ → (ℕ → Client) → IpcServer
new_ipc_server buffer_size heap = record {
  buffer_size = buffer_size;
  heap = heap;
  clients = GoMap.empty;
  handlers = GoMap.empty;
  cancelled = false;
}

unfoldable pub register_handler : String → ℕ → IpcServer → IpcServer
register_handler kind h s = record s { handlers = GoMap.put s.handlers kind h }

-- The handler that routeMessage calls, if there is one.
unfoldable pub route_message : IpcMessage → IpcServer → Option ℕ
route_message m s = GoMap.get s.handlers m.kind

abbrev pub write : ℕ → Client → IpcServer → IpcServer
write p c s = record s { heap = update s.heap p c }

-- A connection that acceptConnections takes up; `p` is a new object.
unfoldable pub accept_connection : ℕ → String → IpcServer → IpcServer
accept_connection p id s =
    let c : Client = record {
      id = id;
      send = make s.buffer_size;
      active = true;
      closing = false;
      closed = false;
    } in
    record (write p c s) { clients = GoMap.put s.clients id p }

-- The `select` of safeCloseClient: a waiting value is received, and the channel is then left open.
abbrev pub drained : Channel (List ℕ) → Option (List ℕ × Channel (List ℕ)) → Channel (List ℕ)
drained c (some (bytes, rest)) = rest
drained c none = close c

abbrev pub shut : Client → Client
shut c = record c { closing = true; closed = true; send = drained c.send (receive c.send) }

-- safeCloseClient up to the write of `Active`, which other goroutines may come before.
unfoldable pub close_client : ℕ → IpcServer → IpcServer
close_client p s = if (s.heap p).closing then s else write p (shut (s.heap p)) s

unfoldable pub deactivate : ℕ → IpcServer → IpcServer
deactivate p s = write p (record (s.heap p) { active = false }) s

unfoldable pub safe_close_client : ℕ → IpcServer → IpcServer
safe_close_client p s = if (s.heap p).closing then s else deactivate p (close_client p s)

-- A receive of the goroutine sendToClient, if a message waits.
abbrev pub received : ℕ → IpcServer → Option (List ℕ × Channel (List ℕ)) → IpcServer
received p s none = s
received p s (some (bytes, rest)) = write p (record (s.heap p) { send = rest }) s

unfoldable pub receive_message : ℕ → IpcServer → IpcServer
receive_message p s = received p s (receive (s.heap p).send)

unfoldable pub close_all : List String → IpcServer → IpcServer
close_all [] s = s
close_all (id ∷ ids) s = elim (GoMap.get s.clients id) [
  | none ↦ close_all ids s
  | some p ↦ close_all ids (safe_close_client p s)
]

unfoldable pub stop : List String → IpcServer → IpcServer
stop order s = record (close_all order (record s { cancelled = true })) { clients = GoMap.empty }

abbrev pub sent : ℕ → IpcServer → Send (List ℕ) → Outcome IpcServer
sent p s (delivered c) = returns (write p (record (s.heap p) { send = c }) s)
sent p s full = returns s
sent p s panicked = panics

-- One client of Broadcast. The test of `Active` and the send are one step here, as in SendToClient below:
-- nothing else happens between them. They are two steps in Ipc/Sending.
abbrev pub broadcast_to : List ℕ → IpcServer → Option ℕ → Outcome IpcServer
broadcast_to bytes s none = returns s
broadcast_to bytes s (some p) =
    if (s.heap p).active then sent p s (try_send (s.heap p).send bytes) else returns s

unfoldable pub broadcast_all : List String → List ℕ → IpcServer → Outcome IpcServer
broadcast_all [] bytes s = returns s
broadcast_all (id ∷ ids) bytes s =
    and_then (broadcast_to bytes s (GoMap.get s.clients id)) (broadcast_all ids bytes)

unfoldable pub broadcast :
    List String → String ⊎ List ℕ → IpcServer → Outcome (IpcServer × Option IpcError)
broadcast order (inl e) s = returns (s, some (marshal_failed e))
broadcast order (inr bytes) s =
    and_then (broadcast_all order bytes s) (λ after. returns (after, none))

-- The case of the `select` in SendToClient that is taken. One that is not ready ends in the timeout.
pub data Choice : Type 0 where
  sends sees_closed times_out : Choice

abbrev pub sent_to : String → ℕ → IpcServer → Send (List ℕ) → Outcome (IpcServer × Option IpcError)
sent_to id p s (delivered c) = returns (write p (record (s.heap p) { send = c }) s, none)
sent_to id p s full = returns (s, some (send_timeout id))
sent_to id p s panicked = panics

abbrev pub selected :
    String → ℕ → List ℕ → IpcServer → Choice → Outcome (IpcServer × Option IpcError)
selected id p bytes s sends = sent_to id p s (try_send (s.heap p).send bytes)
selected id p bytes s sees_closed =
    returns (s, some (if (s.heap p).closed then client_closed id else send_timeout id))
selected id p bytes s times_out = returns (s, some (send_timeout id))

abbrev pub addressed :
    String → List ℕ → Choice → IpcServer → Option ℕ → Outcome (IpcServer × Option IpcError)
addressed id bytes choice s none = returns (s, some (client_not_found id))
addressed id bytes choice s (some p) =
    if not (s.heap p).active
    then returns (s, some (client_not_active id))
    else selected id p bytes s choice

unfoldable pub send_to_client :
    String → String ⊎ List ℕ → Choice → IpcServer → Outcome (IpcServer × Option IpcError)
send_to_client id (inl e) choice s = returns (s, some (marshal_failed e))
send_to_client id (inr bytes) choice s = addressed id bytes choice s (GoMap.get s.clients id)

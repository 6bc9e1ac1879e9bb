-- ===== src/Ipc/Examples.antt =====
-- The theorems about internal/ipc/server.go at a server with one client.
use go_control.Prelude.{◌≡◌, refl, false, List, [], ◌∷◌, inr}
use go_control.GoMap
use go_control.Outcome.{panics}
use go_control.Channel.{make, try_send, receive, close}
use go_control.Ipc.{
  Client, IpcServer, new_ipc_server, accept_connection, broadcast, close_client, deactivate,
}
use go_control.Ipc.Closing.{broadcast-close_client}
use go_control.Ipc.Sending.{Action, Calls, step, run}

abbrev nobody : Client
nobody = record { id = ""; send = make 0; active = false; closing = false; closed = false }

abbrev empty_server : IpcServer
empty_server = new_ipc_server 2 (λ p. nobody)

abbrev server : IpcServer
server = accept_connection 1 "client-1" empty_server

broadcast-close_client_example :
    broadcast ("client-1" ∷ []) (inr (7 ∷ [])) (close_client 1 server) ≡ panics
unfolding accept_connection new_ipc_server GoMap.get GoMap.put GoMap.empty
broadcast-close_client_example =
    broadcast-close_client "client-1" 1 ("client-1" ∷ []) (7 ∷ []) server refl refl refl refl refl

-- The client is sent to, and closed after it.
abbrev day : List Action
day =
    Action.accepts 1 "client-1"
    ∷ Action.checks 1
    ∷ Action.sends 1 (7 ∷ [])
    ∷ Action.receives 1
    ∷ Action.closes 1
    ∷ Action.deactivates 1
    ∷ Action.checks 1
    ∷ Action.sends 1 (8 ∷ [])
    ∷ []

abbrev idle : Calls
idle = record { server = empty_server; sending = [] }

-- A closing that is over before the send of a call that has found the client active.
overtaken :
    run
      (Action.accepts 1 "client-1"
        ∷ Action.checks 1
        ∷ Action.closes 1
        ∷ Action.deactivates 1
        ∷ Action.sends 1 (7 ∷ [])
        ∷ [])
      idle
    ≡ panics
unfolding run step accept_connection close_client deactivate new_ipc_server try_send receive close
overtaken = refl

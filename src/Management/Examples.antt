-- ===== src/Management/Examples.antt =====
-- The theorem about internal/management/application_manager.go at a client that asks for a stop.
use go_control.Prelude.{
  ℕ, String, ◌≡◌, ◌||◌, refl, true, false, List, [], ◌∷◌, ◌⊎◌, inr, arith, eq_iff, member,
  if◌then◌else◌,
}
use go_control.GoMap
use go_control.Outcome.{returns}
use go_control.Channel.{make, pushed}
use go_control.Types.{medium}
use go_control.Nodes.{text, field, entry, no_entries}
use go_control.Samples.{a_task}
use go_control.Scheduler.{Scheduler, Error, new_scheduler}
use go_control.Business
use go_control.Business.{BusinessResponse, cmd_emergency_stop}
use go_control.Ipc
use go_control.Ipc.{Client, IpcMessage, IpcServer, new_ipc_server, accept_connection, sends}
use go_control.Management.{config_commands, route_business_command, handle_business_command}
use go_control.Management.Answering.{handle_business_command-answers}

abbrev itoa : ℕ → String
itoa n = "7"

abbrev error_text : Error → String
error_text e = "refused"

abbrev idle : Scheduler
idle = record (new_scheduler (λ q. a_task "low" medium)) { is_running = true }

abbrev nobody : Client
nobody = record { id = ""; send = make 0; active = false; closing = false; closed = false }

abbrev server : IpcServer
server = accept_connection 1 "client-1" (new_ipc_server 2 (λ p. nobody))

abbrev request : IpcMessage
request = record {
  kind = "business_command";
  source = "client-1";
  target = "";
  payload = entry "command" (text cmd_emergency_stop) no_entries;
  timestamp = 0;
  id = "r1";
}

abbrev encode : String → BusinessResponse → String ⊎ List ℕ
encode target response = inr (1 ∷ 2 ∷ [])

abbrev result : Scheduler × BusinessResponse
result =
    route_business_command itoa 3 4 error_text 1
      (record { command = cmd_emergency_stop; request_id = "r1" }) idle

handle_business_command-answers_example :
    (handle_business_command itoa 3 4 error_text 1 encode request sends idle server
      ≡ returns (
        result.0,
        Ipc.write 1
            (record (server.heap 1) { send = pushed (server.heap 1).send (1 ∷ 2 ∷ []) })
            server,
      ))
    × (result.1.request_id ≡ "r1")
    × (result.1.status ≡ (
        if member cmd_emergency_stop config_commands
          || member cmd_emergency_stop (Business.get_handled_commands itoa 3 4 error_text 1)
        then "success"
        else "error"))
unfolding accept_connection new_ipc_server GoMap.get GoMap.put GoMap.empty field
handle_business_command-answers_example =
    handle_business_command-answers itoa 3 4 error_text 1 encode request idle server 1 (1 ∷ 2 ∷ [])
      cmd_emergency_stop refl refl (ground (arith, eq_iff "client-1" "")) refl refl refl
      (omega arith) refl

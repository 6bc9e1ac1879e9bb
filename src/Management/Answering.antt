-- ===== src/Management/Answering.antt =====
-- internal/management/application_manager.go: the answers to business commands.
use go_control.Prelude.{
  ℕ, String, ◌≡◌, ◌≢◌, ◌<◌, refl, ap, ◌∙◌, Bool, true, false, ◌||◌, none, some, List, [], ◌∷◌, ◌⊎◌,
  inl, inr, arith, member, str_eq, eq_iff, if◌then◌else◌, Bool-cases, length,
}
use go_control.GoMap
use go_control.GoMap.{GoMap, get-empty}
use go_control.Outcome.{returns}
use go_control.Channel.{pushed}
use go_control.Nodes.{text, field}
use go_control.Scheduler.{Scheduler, Error}
use go_control.Business
use go_control.Business.{BusinessMessage, BusinessResponse}
use go_control.Business.Handling.{among, handle_command_lem}
use go_control.Ipc
use go_control.Ipc.{IpcMessage, IpcServer, sends, send_to_client}
use go_control.Ipc.Sending.{addressed-sends}
use go_control.Router.{new_command_router, register_handler, route_command}
use go_control.Router.Routing.{unregister_handler-register_handler}
use go_control.Management.{
  cmd_get_config, cmd_set_config, cmd_list_templates, config_commands, config_handler,
  handle_config_command, handle_get_config, handle_set_config, handle_list_templates,
  parse_business_message, business_handler, handler_at, setup_command_handlers,
  route_business_command, send_business_response, handle_business_command,
}

among-member : (c : String) (ds : List String) → among c ds ≡ member c ds
among-member c [] = refl
among-member c (d ∷ ds) = ground (arith, among-member c ds, eq_iff c d, eq_iff d c)

module _ (itoa : ℕ → String) (nano now : ℕ) (error_text : Error → String) (p : ℕ) where
  abbrev business_commands : List String
  business_commands = Business.get_handled_commands itoa nano now error_text p

  abbrev pub is_known : String → Bool
  is_known cmd = member cmd config_commands || member cmd business_commands

  handler_of :
      (cmd : String)
      → GoMap.get (setup_command_handlers itoa nano now error_text p).handlers cmd ≡ (
          if member cmd config_commands
          then some 1
          else if member cmd business_commands
          then some 0
          else none)
  unfolding setup_command_handlers config_handler business_handler
  handler_of cmd =
      let at = handler_at itoa nano now error_text p in
      let business = (unregister_handler-register_handler at 0 new_command_router cmd).0 in
      let both =
        (unregister_handler-register_handler at 1 (register_handler at 0 new_command_router)
          cmd).0 in
      let fresh : GoMap.get new_command_router.handlers cmd ≡ none =
        unfold new_command_router in get-empty cmd in
      both
      ∙ ap (λ o. if member cmd config_commands then some 1 else o)
          (business ∙ ap (λ o. if member cmd business_commands then some 0 else o) fresh)

  config_status :
      (msg : BusinessMessage)
      → member msg.command config_commands ≡ true
      → ((handle_config_command now msg).status ≡ "success")
        × ((handle_config_command now msg).request_id ≡ msg.request_id)
  unfolding handle_config_command handle_get_config handle_set_config handle_list_templates
  config_status msg h = ground (
    arith,
    eq_iff msg.command cmd_get_config,
    eq_iff msg.command cmd_set_config,
    eq_iff msg.command cmd_list_templates,
    eq_iff cmd_get_config msg.command,
    eq_iff cmd_set_config msg.command,
    eq_iff cmd_list_templates msg.command,
  )

  abbrev IsAnswer : BusinessMessage → BusinessResponse → Type 0
  IsAnswer msg r =
      (r.status ≡ (if is_known msg.command then "success" else "error"))
      × (r.request_id ≡ msg.request_id)

  route-IsAnswer :
      (msg : BusinessMessage) (s : Scheduler)
      → s.is_running ≡ true
      → IsAnswer msg (route_business_command itoa nano now error_text p msg s).1
  unfolding route_business_command route_command config_handler business_handler
  route-IsAnswer msg s running = elim (Bool-cases (member msg.command config_commands)) [
    | inl known ↦ rw (handler_of msg.command) (rw known (config_status msg known))
    | inr other ↦ elim (Bool-cases (member msg.command business_commands)) [
      | inl known ↦
          let answered = handle_command_lem itoa nano now error_text p msg s running in
          rw (handler_of msg.command) (
            rw other (
              rw known (
                (answered.0
                    ∙ ap (λ b. if b then "success" else "error")
                        (among-member msg.command business_commands ∙ known)),
                answered.1,
              )))
      | inr unknown ↦ rw (handler_of msg.command) (rw other (rw unknown (refl, refl)))
    ]
  ]

  module _ (encode : String → BusinessResponse → String ⊎ List ℕ) where
    send-sent :
        (target : String) (response : BusinessResponse) (server : IpcServer) (q : ℕ)
        (bytes : List ℕ)
        → target ≢ ""
        → GoMap.get server.clients target ≡ some q
        → (server.heap q).active ≡ true
        → (server.heap q).send.closed ≡ false
        → length (server.heap q).send.buffer < (server.heap q).send.capacity
        → encode target response ≡ inr bytes
        → send_business_response itoa nano now error_text p encode target response sends server
          ≡ returns (
              Ipc.write q
                (record (server.heap q) { send = pushed (server.heap q).send bytes })
                server)
    unfolding send_business_response send_to_client
    send-sent target response server q bytes named found active opened room encoded =
        let is_named : str_eq target "" ≡ false = ground (arith, eq_iff target "") in
        rw is_named (
          rw encoded
            (rw found (rw (addressed-sends target bytes server q active opened room) refl)))

    -- While the scheduler runs, a business command of a connected client, whose channel has room, is
    -- answered by one message in that channel, and no other client gets one. The answer has the id of the
    -- request; it is a success exactly if the business logic or the configuration handler names the
    -- command.
    pub handle_business_command-answers :
        (m : IpcMessage) (s : Scheduler) (server : IpcServer) (q : ℕ) (bytes : List ℕ)
        (cmd : String)
        → s.is_running ≡ true
        → field m.payload "command" ≡ some (text cmd)
        → m.source ≢ ""
        → GoMap.get server.clients m.source ≡ some q
        → (server.heap q).active ≡ true
        → (server.heap q).send.closed ≡ false
        → length (server.heap q).send.buffer < (server.heap q).send.capacity
        → let msg : BusinessMessage = record { command = cmd; request_id = m.id } in
          let result = route_business_command itoa nano now error_text p msg s in
          encode m.source result.1 ≡ inr bytes
          → (handle_business_command itoa nano now error_text p encode m sends s server
              ≡ returns (
                result.0,
                Ipc.write q
                    (record (server.heap q) { send = pushed (server.heap q).send bytes })
                    server,
              ))
            × (result.1.request_id ≡ m.id)
            × (result.1.status ≡ (
                if member cmd config_commands
                  || member cmd (Business.get_handled_commands itoa nano now error_text p)
                then "success"
                else "error"))
    unfolding handle_business_command parse_business_message
    handle_business_command-answers m s server q bytes cmd running is_command named found active
          opened room encoded =
        let msg : BusinessMessage = record { command = cmd; request_id = m.id } in
        let result = route_business_command itoa nano now error_text p msg s in
        let answer = route-IsAnswer msg s running in
        (
          rw is_command (
              rw (send-sent m.source result.1 server q bytes named found active opened room encoded)
                refl),
          answer.1,
          answer.0,
        )

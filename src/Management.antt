-- ===== src/Management.antt =====
-- internal/management: the configuration handler, and how the application manager answers business
-- commands of clients. The scheduler is the state that the handlers of commands change. `encode` is what
-- json.Marshal gives for the message that sendBusinessResponse makes of a response; the parameters of a
-- command, which no handler reads, are left out.
pub mod Answering
mod Examples
use Prim.Native.String.{◌++◌ as append}
use go_control.Prelude.{
  ℕ, String, Option, some, List, [], ◌∷◌, ◌⊎◌, inl, inr, ◌==◌, str_eq, if◌then◌else◌,
}
use go_control.Outcome.{Outcome, returns, and_then}
use go_control.Nodes.{Value, text, field}
use go_control.Scheduler.{Scheduler, Error}
use go_control.Business
use go_control.Business.{
  BusinessMessage, BusinessResponse, ResponseData, no_data, system_config, message, templates,
}
use go_control.Ipc.{IpcMessage, IpcServer, Choice, send_to_client}
use go_control.Router.{
  CommandHandler, CommandRouter, new_command_router, register_handler, route_command,
}

abbrev pub cmd_get_config : String
cmd_get_config = "get_config"

abbrev pub cmd_set_config : String
cmd_set_config = "set_config"

abbrev pub cmd_list_templates : String
cmd_list_templates = "list_templates"

abbrev pub config_commands : List String
config_commands = cmd_get_config ∷ cmd_set_config ∷ cmd_list_templates ∷ []

abbrev pub config_success : ℕ → BusinessMessage → ResponseData → BusinessResponse
config_success now msg d = record {
  request_id = msg.request_id;
  status = "success";
  payload = d;
  error = "";
  timestamp = now;
}

-- The map that handleGetConfig returns is a constant.
unfoldable pub handle_get_config : ℕ → BusinessMessage → BusinessResponse
handle_get_config now msg = config_success now msg system_config

unfoldable pub handle_set_config : ℕ → BusinessMessage → BusinessResponse
handle_set_config now msg = config_success now msg (message "Configuration update initiated")

unfoldable pub handle_list_templates : ℕ → BusinessMessage → BusinessResponse
handle_list_templates now msg =
    config_success now msg
      (templates ("home_all" ∷ "safety_check" ∷ "self_check" ∷ "emergency_stop" ∷ []))

unfoldable pub handle_config_command : ℕ → BusinessMessage → BusinessResponse
handle_config_command now msg =
    if str_eq msg.command cmd_get_config
    then handle_get_config now msg
    else if str_eq msg.command cmd_set_config
    then handle_set_config now msg
    else if str_eq msg.command cmd_list_templates
    then handle_list_templates now msg
    else record {
      request_id = msg.request_id;
      status = "error";
      payload = no_data;
      error = append "config handler cannot handle command: " msg.command;
      timestamp = now;
    }

unfoldable pub config_handler : ℕ → CommandHandler Scheduler
config_handler now = record {
  get_handled_commands = config_commands;
  handle_command = λ msg s. (s, handle_config_command now msg);
}

abbrev pub command_of : Option Value → IpcMessage → String ⊎ BusinessMessage
command_of (some (text command)) m = inr (record { command = command; request_id = m.id })
command_of _ m = inl "invalid business command format"

unfoldable pub parse_business_message : IpcMessage → String ⊎ BusinessMessage
parse_business_message m = command_of (field m.payload "command") m

unfoldable pub error_response : ℕ → String → String → BusinessResponse
error_response now request reason = record {
  request_id = request;
  status = "error";
  payload = no_data;
  error = reason;
  timestamp = now;
}

-- `p` is the new task of a business command, `nano` the clock at the making of its id.
module _ (itoa : ℕ → String) (nano now : ℕ) (error_text : Error → String) (p : ℕ) where
  unfoldable pub business_handler : CommandHandler Scheduler
  business_handler = record {
    get_handled_commands = Business.get_handled_commands itoa nano now error_text p;
    handle_command = Business.handle_command itoa nano now error_text p;
  }

  -- The business logic is the handler 0, the configuration handler 1.
  abbrev pub handler_at : ℕ → CommandHandler Scheduler
  handler_at h = if h == 0 then business_handler else config_handler now

  unfoldable pub setup_command_handlers : CommandRouter
  setup_command_handlers =
      register_handler handler_at 1 (register_handler handler_at 0 new_command_router)

  unfoldable pub route_business_command : BusinessMessage → Scheduler → Scheduler × BusinessResponse
  route_business_command msg s = route_command handler_at now msg setup_command_handlers s

  module _ (encode : String → BusinessResponse → String ⊎ List ℕ) where
    -- An error of SendToClient is only logged.
    unfoldable pub send_business_response :
        String → BusinessResponse → Choice → IpcServer → Outcome IpcServer
    send_business_response target response choice server =
        if str_eq target ""
        then returns server
        else and_then (send_to_client target (encode target response) choice server)
            (λ r. returns r.0)

    abbrev pub responded :
        String → Choice → IpcServer → Scheduler × BusinessResponse → Outcome (Scheduler × IpcServer)
    responded target choice server (s, response) =
        and_then (send_business_response target response choice server)
          (λ after. returns (s, after))

    abbrev pub handled :
        String
        → Choice
        → Scheduler
        → IpcServer
        → String ⊎ BusinessMessage
        → Outcome (Scheduler × IpcServer)
    handled target choice s server (inl e) =
        responded target choice server (s, error_response now "" e)
    handled target choice s server (inr msg) =
        responded target choice server (route_business_command msg s)

    -- The goroutine that handleBusinessCommand starts.
    unfoldable pub handle_business_command :
        IpcMessage → Choice → Scheduler → IpcServer → Outcome (Scheduler × IpcServer)
    handle_business_command m choice s server =
        handled m.source choice s server (parse_business_message m)

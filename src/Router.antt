-- ===== src/Router.antt =====
-- internal/core/command_handler.go: the router of business commands. A handler is a pointer `h` to an
-- object `handler_at h`; its calls pass a state `S` on.
pub mod Routing
use Prim.Native.String.{◌++◌ as append}
use go_control.Prelude.{
  ℕ, String, Bool, false, Option, none, some, List, [], ◌∷◌, ◌==◌, if◌then◌else◌,
}
use go_control.GoMap
use go_control.GoMap.{GoMap}
use go_control.Business.{BusinessMessage, BusinessResponse, no_data}

pub record CommandHandler (S : Type 0) : Type 0 where
  pub get_handled_commands : List String
  pub handle_command : BusinessMessage → S → S × BusinessResponse

pub record CommandRouter : Type 0 where
  pub handlers : GoMap ℕ

unfoldable pub new_command_router : CommandRouter
new_command_router = record { handlers = GoMap.empty }

-- A handler that is there for a command is replaced, with a warning.
unfoldable pub register_commands : ℕ → List String → CommandRouter → CommandRouter
register_commands h [] cr = cr
register_commands h (cmd ∷ cmds) cr =
    register_commands h cmds (record { handlers = GoMap.put cr.handlers cmd h })

abbrev pub is_handler : ℕ → Option ℕ → Bool
is_handler h none = false
is_handler h (some k) = k == h

unfoldable pub unregister_commands : ℕ → List String → CommandRouter → CommandRouter
unregister_commands h [] cr = cr
unregister_commands h (cmd ∷ cmds) cr = unregister_commands h cmds (
    if is_handler h (GoMap.get cr.handlers cmd)
    then record { handlers = GoMap.remove cr.handlers cmd }
    else cr)

module _ {S : Type 0} (handler_at : ℕ → CommandHandler S) where
  unfoldable pub register_handler : ℕ → CommandRouter → CommandRouter
  register_handler h cr = register_commands h (handler_at h).get_handled_commands cr

  unfoldable pub unregister_handler : ℕ → CommandRouter → CommandRouter
  unregister_handler h cr = unregister_commands h (handler_at h).get_handled_commands cr

  abbrev pub unhandled : ℕ → BusinessMessage → BusinessResponse
  unhandled now msg = record {
    request_id = msg.request_id;
    status = "error";
    payload = no_data;
    error = append "no handler registered for command: " msg.command;
    timestamp = now;
  }

  abbrev pub routed : ℕ → BusinessMessage → S → Option ℕ → S × BusinessResponse
  routed now msg s none = (s, unhandled now msg)
  routed now msg s (some h) = (handler_at h).handle_command msg s

  unfoldable pub route_command : ℕ → BusinessMessage → CommandRouter → S → S × BusinessResponse
  route_command now msg cr s = routed now msg s (GoMap.get cr.handlers msg.command)

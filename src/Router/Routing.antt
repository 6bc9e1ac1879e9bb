-- ===== src/Router/Routing.antt =====
-- internal/core/command_handler.go: which handler a command is routed to.
use go_control.Prelude.{
  ℕ, String, ◌≡◌, refl, ◌&&◌, none, some, List, [], ◌∷◌, arith, eq_iff, if◌then◌else◌, member,
}
use go_control.GoMap
use go_control.GoMap.{GoMap, get-put, get-remove}
use go_control.Router.{
  CommandHandler, CommandRouter, register_commands, unregister_commands, is_handler,
  register_handler, unregister_handler,
}

get-register_commands :
    (h : ℕ) (cmds : List String) (cr : CommandRouter) (cmd : String)
    → GoMap.get (register_commands h cmds cr).handlers cmd
      ≡ (if member cmd cmds then some h else GoMap.get cr.handlers cmd)
unfolding register_commands
get-register_commands h [] cr cmd = refl
get-register_commands h (c ∷ cmds) cr cmd = ground (
  arith,
  get-register_commands h cmds (record { handlers = GoMap.put cr.handlers c h }) cmd,
  get-put cr.handlers c cmd h,
)

get-unregister_commands :
    (h : ℕ) (cmds : List String) (cr : CommandRouter) (cmd : String)
    → GoMap.get (unregister_commands h cmds cr).handlers cmd ≡ (
        if member cmd cmds && is_handler h (GoMap.get cr.handlers cmd)
        then none
        else GoMap.get cr.handlers cmd)
unfolding unregister_commands
get-unregister_commands h [] cr cmd = refl
get-unregister_commands h (c ∷ cmds) cr cmd = ground (
  arith,
  get-unregister_commands h cmds cr cmd,
  get-unregister_commands h cmds (record { handlers = GoMap.remove cr.handlers c }) cmd,
  get-remove cr.handlers c cmd,
  eq_iff c cmd,
)

module _ {S : Type 0} (handler_at : ℕ → CommandHandler S) where
  -- RegisterHandler takes over exactly the commands of the handler, whoever had them. An
  -- UnregisterHandler then leaves these without a handler, and every other command with the one that it
  -- had.
  pub unregister_handler-register_handler :
      (h : ℕ) (cr : CommandRouter) (cmd : String)
      → let commands = (handler_at h).get_handled_commands in
        let registered = register_handler handler_at h cr in
        (GoMap.get registered.handlers cmd
          ≡ (if member cmd commands then some h else GoMap.get cr.handlers cmd))
        × (GoMap.get (unregister_handler handler_at h registered).handlers cmd
            ≡ (if member cmd commands then none else GoMap.get cr.handlers cmd))
  unfolding register_handler unregister_handler
  unregister_handler-register_handler h cr cmd =
      let commands = (handler_at h).get_handled_commands in
      let registered = get-register_commands h commands cr cmd in
      (
        registered,
        ground (
          arith,
          registered,
          get-unregister_commands h commands (register_commands h commands cr) cmd,
        ),
      )

-- ===== src/EventLoop.antt =====
-- internal/core/eventloop.go: the event loop. A module or handler is a number. What the source asks
-- of a module is a parameter: its name and the events that it subscribes to. `calls` holds the
-- handler calls that have been started as goroutines, `started` and `stopped` the calls of a module's
-- Start and Stop, each in their order.
pub mod Registration
mod Examples
use go_control.Prelude.{
  ℕ, String, Bool, true, false, not, Option, none, some, List, [], ◌∷◌, ◌++◌, str_eq, map,
  if◌then◌else◌,
}
use go_control.GoMap
use go_control.GoMap.{GoMap}
use go_control.Channel.{Channel, delivered, full, panicked, make, try_send}
use go_control.Events.{Event, other_event, event_type_system_start, event_type_system_stop}
use go_control.Outcome.{Outcome, returns, panics, and_then}

pub data LoopError : Type 0 where
  already_running not_running event_queue_full : LoopError
  module_exists module_not_found no_handlers handler_not_found start_failed : String → LoopError

pub record EventLoop : Type 0 where
  pub modules : GoMap ℕ
  pub handlers : GoMap (List ℕ)
  pub event_queue : Channel Event
  pub running : Bool
  pub calls : List (ℕ × Event)
  pub started : List ℕ
  pub stopped : List ℕ

abbrev pub new_event_loop : EventLoop
new_event_loop = record {
  modules = GoMap.empty;
  handlers = GoMap.empty;
  event_queue = make 1000;
  running = false;
  calls = [];
  started = [];
  stopped = [];
}

unfoldable pub emit_event : Event → EventLoop → Outcome (EventLoop × Option LoopError)
emit_event e el =
    if not el.running then returns (el, some not_running) else elim (try_send el.event_queue e) [
      | delivered c ↦ returns (record el { event_queue = c }, none)
      | full ↦ returns (el, some event_queue_full)
      | panicked ↦ panics
    ]

abbrev pub system_event : String → Event
system_event kind = record { kind = kind; source = "event_loop"; payload = other_event }

-- The error of the emission is dropped.
unfoldable pub start : EventLoop → Outcome (EventLoop × Option LoopError)
start el =
    if el.running
    then returns (el, some already_running)
    else and_then (emit_event (system_event event_type_system_start) (record el { running = true }))
        (λ r. returns (r.0, none))

-- Stop up to its pause, in which other goroutines go on.
unfoldable pub begin_stop : EventLoop → Outcome (EventLoop × Option LoopError)
begin_stop el =
    if not el.running
    then returns (el, some not_running)
    else and_then (emit_event (system_event event_type_system_stop) el) (λ r. returns (r.0, none))

-- Stop after its pause: every module is stopped, whatever error it returns.
unfoldable pub end_stop : EventLoop → EventLoop
end_stop el = record el { stopped = el.stopped ++ GoMap.values el.modules; running = false }

abbrev pub handlers_or_nil : Option (List ℕ) → List ℕ
handlers_or_nil none = []
handlers_or_nil (some hs) = hs

unfoldable pub register_handler : String → ℕ → EventLoop → EventLoop
register_handler kind h el = record el {
  handlers = GoMap.put el.handlers kind (handlers_or_nil (GoMap.get el.handlers kind) ++ h ∷ []);
}

-- The loop over the events that a module subscribes to.
unfoldable pub register_all : List String → ℕ → EventLoop → EventLoop
register_all [] m el = el
register_all (kind ∷ kinds) m el = register_all kinds m (register_handler kind m el)

-- One goroutine for each handler of the event's type.
unfoldable pub handle_event : Event → EventLoop → EventLoop
handle_event e el = elim (GoMap.get el.handlers e.kind) [
  | none ↦ el
  | some hs ↦ record el { calls = el.calls ++ map (λ h. (h, e)) hs }
]

-- `failed` is the error that `module.Start` returns, if it is called.
abbrev pub start_module : ℕ → Option String → EventLoop → EventLoop × Option LoopError
start_module m failed el =
    let s = record el { started = el.started ++ m ∷ [] } in
    elim failed [ none ↦ (s, none) | some e ↦ (s, some (start_failed e)) ]

-- An error of the module's Stop is only logged. The handlers of the module stay.
unfoldable pub unregister_module : String → EventLoop → EventLoop × Option LoopError
unregister_module name el = elim (GoMap.get el.modules name) [
  | none ↦ (el, some (module_not_found name))
  | some m ↦
      let s = if el.running then record el { stopped = el.stopped ++ m ∷ [] } else el in
      (record s { modules = GoMap.remove s.modules name }, none)
]

module _ (subscribed_events : ℕ → List String) where
  unfoldable pub register_module :
      String → ℕ → Option String → EventLoop → EventLoop × Option LoopError
  register_module name m failed el = elim (GoMap.get el.modules name) [
    | some old ↦ (el, some (module_exists name))
    | none ↦
        let r =
          register_all (subscribed_events m) m
            (record el { modules = GoMap.put el.modules name m }) in
        if r.running then start_module m failed r else (r, none)
  ]

module _ (name_of : ℕ → String) where
  abbrev pub has_name : String → List ℕ → Bool
  has_name name [] = false
  has_name name (h ∷ hs) = if str_eq (name_of h) name then true else has_name name hs

  -- The first handler with the name goes.
  abbrev pub without_name : String → List ℕ → List ℕ
  without_name name [] = []
  without_name name (h ∷ hs) =
      let rest = without_name name hs in if str_eq (name_of h) name then hs else h ∷ rest

  unfoldable pub unregister_handler : String → ℕ → EventLoop → EventLoop × Option LoopError
  unregister_handler kind h el = elim (GoMap.get el.handlers kind) [
    | none ↦ (el, some (no_handlers kind))
    | some hs ↦
        if has_name (name_of h) hs
        then (
          record el { handlers = GoMap.put el.handlers kind (without_name (name_of h) hs) },
          none,
        )
        else (el, some (handler_not_found (name_of h)))
  ]

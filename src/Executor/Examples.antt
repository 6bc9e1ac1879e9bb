-- ===== src/Executor/Examples.antt =====
-- The theorem about the events of internal/core/executor.go at a running executor, and a test.
use go_control.Prelude.{◌≡◌, refl, true, false, none, some, [], ◌∷◌}
use go_control.GoMap
use go_control.Outcome.{panics, Returns}
use go_control.Events.{Event, other_event, event_type_system_start, event_type_system_stop}
use go_control.Samples.{no_object}
use go_control.Queue.{new_execution_queue}
use go_control.Executor.{CommandExecutor, already_running}
use go_control.Executor.Handling.{
  start_command_processing, Processing, start, handle_event, handle_events, IsIdle,
  handle_events-stop,
}

abbrev executor : CommandExecutor
executor = record {
  devices = GoMap.empty;
  queue = record (new_execution_queue (λ _. no_object) 100) { is_running = true };
  is_running = true;
  writes = [];
  disconnects = [];
}

abbrev running : Processing
running = record { executor = executor; context = some false; goroutines = 1 }

abbrev starting : Event
starting = record { kind = event_type_system_start; source = "system"; payload = other_event }

abbrev stopping : Event
stopping = record { kind = event_type_system_stop; source = "system"; payload = other_event }

handle_events-stop_example :
    Returns
      (λ q. IsIdle executor q × (start q ≡ (q, some already_running)))
      (handle_events (stopping ∷ starting ∷ []) running)
handle_events-stop_example =
    handle_events-stop executor refl running false stopping (starting ∷ []) refl refl refl

never_started :
    handle_event starting
      (record { executor = record executor { is_running = false }; context = none; goroutines = 0 })
    ≡ panics
unfolding handle_event start_command_processing
never_started = refl

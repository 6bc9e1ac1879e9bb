-- ===== src/EventLoop/Examples.antt =====
-- internal/core/eventloop.go: a running loop with one handler, and the theorems at it.
use go_control.Prelude.{ℕ, zero, suc, String, ◌≡◌, refl, true, none, List, [], ◌∷◌, ◌++◌}
use go_control.GoMap
use go_control.Events.{Event, event_type_timer_tick, event_type_task_request}
use go_control.EventLoop.{
  EventLoop, new_event_loop, system_event, register_module, unregister_module,
}
use go_control.EventLoop.Registration.{handlers_of, reregistered_twice}

abbrev ticking : ℕ → List String
ticking m = event_type_timer_tick ∷ event_type_task_request ∷ []

abbrev label : ℕ → String
label zero = "scheduler"
label (suc h) = "trigger"

abbrev live : EventLoop
live = record new_event_loop {
  handlers = GoMap.put GoMap.empty event_type_timer_tick (4 ∷ []);
  running = true;
}

abbrev tick : Event
tick = system_event event_type_timer_tick

reregistered_twice_example :
    (handlers_of
        (unregister_module "m" (register_module ticking "m" 7 none live).0).0
        event_type_timer_tick
      ≡ handlers_of live event_type_timer_tick ++ 7 ∷ [])
    × (handlers_of
          (register_module ticking "m" 7 none
            (unregister_module "m" (register_module ticking "m" 7 none live).0).0).0
          event_type_timer_tick
        ≡ (handlers_of live event_type_timer_tick ++ 7 ∷ []) ++ 7 ∷ [])
unfolding GoMap.get GoMap.empty
reregistered_twice_example = reregistered_twice ticking "m" 7 none live event_type_timer_tick refl

-- ===== src/Events.antt =====
-- internal/core/events.go: the events that the core components handle. An event type is a string
-- in the source too. Of the payloads only the one of `TaskEvent` is read by a modelled handler.
use go_control.Prelude.{ℕ, String}

abbrev pub event_type_system_start : String
event_type_system_start = "system_start"

abbrev pub event_type_system_stop : String
event_type_system_stop = "system_stop"

abbrev pub event_type_task_request : String
event_type_task_request = "task_request"

abbrev pub event_type_task_complete : String
event_type_task_complete = "task_complete"

abbrev pub event_type_timer_tick : String
event_type_timer_tick = "timer_tick"

-- The dynamic type of `TaskEvent.Data`: nil, a `*types.Task`, or something else.
pub data EventData : Type 0 where
  no_data : EventData
  task : ℕ → EventData
  other_data : EventData

-- The dynamic type of the event: `*TaskEvent`, or one of the others.
pub data Payload : Type 0 where
  task_event : String → String → EventData → Payload
  other_event : Payload

pub record Event : Type 0 where
  pub kind : String
  pub source : String
  pub payload : Payload

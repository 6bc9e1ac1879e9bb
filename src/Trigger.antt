-- ===== src/Trigger.antt =====
-- internal/core/trigger.go: the task trigger. `heap` holds the `*types.Task` objects. A trigger's
-- function is a callback of the client: what it returns is part of the visit of the loop. `above`
-- is the test `>` on float64, and `sprintf_task` is `fmt.Sprintf("task-%d", …)`.
pub mod Validation
pub mod Checks
pub mod Ticks
mod Examples
use go_control.Prelude.{
  ℕ, ◌-◌, String, Bool, true, false, not, ◌||◌, ◌==◌, Option, none, some, List, [], ◌∷◌, str_eq,
  ltb, if◌then◌else◌, update,
}
use go_control.GoMap
use go_control.GoMap.{GoMap}
use go_control.Channel.{Channel, delivered, full, panicked, make, try_send, close}
use go_control.Events.{
  Event, event_type_system_start, event_type_system_stop, event_type_timer_tick,
}
use go_control.Outcome.{Outcome, returns, panics, and_then}
use go_control.Types.{Task, SystemConfig, Float64}

pub data TriggerError : Type 0 where
  already_running not_running no_task no_type no_axes : TriggerError
  trigger_exists trigger_not_found axis_not_found : String → TriggerError
  x_out_of_bounds y_out_of_bounds velocity_exceeds : String → TriggerError

-- `last_trigger` is `none` for the zero time.
pub record TriggerSource : Type 0 where
  pub name : String
  pub enabled : Bool
  pub last_trigger : Option ℕ

pub record TaskTrigger : Type 0 where
  pub heap : ℕ → Task
  pub triggers : GoMap TriggerSource
  pub config : SystemConfig
  pub task_chan : Channel ℕ
  pub running : Bool

-- A visit of a loop over the triggers: the key, what the trigger's function returns if it is
-- called, and the clock's readings.
pub record Visit : Type 0 where
  pub key : String
  pub returned : Option ℕ
  pub tested_at : ℕ
  pub nanos : ℕ
  pub created_at : ℕ
  pub sent_at : ℕ

unfoldable pub new_task_trigger : (ℕ → Task) → SystemConfig → TaskTrigger
new_task_trigger heap config = record {
  heap = heap;
  triggers = GoMap.empty;
  config = config;
  task_chan = make 100;
  running = false;
}

unfoldable pub start : TaskTrigger → TaskTrigger × Option TriggerError
start t = if t.running then (t, some already_running) else (record t { running = true }, none)

-- `close` of a closed channel panics.
unfoldable pub stop : TaskTrigger → Outcome (TaskTrigger × Option TriggerError)
stop t =
    if not t.running
    then returns (t, some not_running)
    else if t.task_chan.closed
    then panics
    else returns (record t { task_chan = close t.task_chan; running = false }, none)

unfoldable pub add_trigger : String → TaskTrigger → TaskTrigger × Option TriggerError
add_trigger source t = elim (GoMap.get t.triggers source) [
  | some s ↦ (t, some (trigger_exists source))
  | none ↦
      let s : TriggerSource = record { name = source; enabled = true; last_trigger = none } in
      (record t { triggers = GoMap.put t.triggers source s }, none)
]

unfoldable pub remove_trigger : String → TaskTrigger → TaskTrigger × Option TriggerError
remove_trigger source t = elim (GoMap.get t.triggers source) [
  | none ↦ (t, some (trigger_not_found source))
  | some s ↦ (record t { triggers = GoMap.remove t.triggers source }, none)
]

-- EnableTrigger and DisableTrigger, which differ in the value that they write.
unfoldable pub set_enabled : Bool → String → TaskTrigger → TaskTrigger × Option TriggerError
set_enabled on source t = elim (GoMap.get t.triggers source) [
  | none ↦ (t, some (trigger_not_found source))
  | some s ↦ (record t { triggers = GoMap.put t.triggers source (record s { enabled = on }) }, none)
]

-- 30 * time.Second
abbrev pub default_timeout : ℕ
default_timeout = 30000000000

abbrev pub second : ℕ
second = 1000000000

abbrev pub with_timeout : Task → Task
with_timeout t = if t.timeout == 0 then record t { timeout = default_timeout } else t

-- shouldTrigger
abbrev pub should_trigger : ℕ → TriggerSource → Bool
should_trigger now s = elim s.last_trigger [ none ↦ true | some at ↦ not (ltb (now - at) second) ]

-- The `select` that sends the task and writes down the time.
unfoldable pub send : Visit → TriggerSource → ℕ → TaskTrigger → Outcome TaskTrigger
send v s p t = elim (try_send t.task_chan p) [
  | delivered c ↦ returns (record t {
    task_chan = c;
    triggers = GoMap.put t.triggers v.key (record s { last_trigger = some v.sent_at });
  })
  | full ↦ returns t
  | panicked ↦ panics
]

-- checkAndTriggerTriggers: the body of the loop, and the loop.
unfoldable pub fire : Visit → TaskTrigger → Outcome TaskTrigger
fire v t = elim (GoMap.get t.triggers v.key) [
  | none ↦ returns t
  | some s ↦
      if not s.enabled
      then returns t
      else if should_trigger v.tested_at s
      then (elim v.returned [ none ↦ returns t | some p ↦ send v s p t ])
      else returns t
]

unfoldable pub check_and_trigger_triggers : List Visit → TaskTrigger → Outcome TaskTrigger
check_and_trigger_triggers [] t = returns t
check_and_trigger_triggers (v ∷ vs) t = and_then (fire v t) (check_and_trigger_triggers vs)

unfoldable pub handle_event : Event → List Visit → TaskTrigger → Outcome TaskTrigger
handle_event e visits t =
    if str_eq e.kind event_type_system_start
    then returns t
    else if str_eq e.kind event_type_system_stop
    then returns t
    else if str_eq e.kind event_type_timer_tick
    then check_and_trigger_triggers visits t
    else returns t

module _ (above : Float64 → Float64 → Bool) where
  unfoldable pub check_axis : SystemConfig → Task → String → Option TriggerError
  check_axis config t axis = elim (GoMap.get config.axes axis) [
    | none ↦ some (axis_not_found axis)
    | some a ↦
        if above a.min_position t.target.x || above t.target.x a.max_position
        then some (x_out_of_bounds axis)
        else if above a.min_position t.target.y || above t.target.y a.max_position
        then some (y_out_of_bounds axis)
        else if above t.velocity.linear a.max_velocity
        then some (velocity_exceeds axis)
        else none
  ]

  -- The loop over the axes ends with the first error.
  unfoldable pub check_axes : SystemConfig → Task → List String → Option TriggerError
  check_axes config t [] = none
  check_axes config t (axis ∷ rest) =
      let later = check_axes config t rest in
      elim (check_axis config t axis) [ some e ↦ some e | none ↦ later ]

  -- ValidateTrigger past the test of the type, by the task's axes: the task gets its timeout before
  -- the axes are checked.
  abbrev pub check_task :
      SystemConfig → ℕ → (ℕ → Task) → List String → (ℕ → Task) × Option TriggerError
  check_task config p heap [] = (heap, some no_axes)
  check_task config p heap (axis ∷ rest) =
      let t = with_timeout (heap p) in (update heap p t, check_axes config t (axis ∷ rest))

  unfoldable pub validate_trigger :
      SystemConfig → Option ℕ → (ℕ → Task) → (ℕ → Task) × Option TriggerError
  validate_trigger config none heap = (heap, some no_task)
  validate_trigger config (some p) heap =
      if str_eq (heap p).kind ""
      then (heap, some no_type)
      else check_task config p heap (heap p).axes

  module _ (sprintf_task : ℕ → String) where
    abbrev pub stamp : Visit → Task → Task
    stamp v t = record t { id = sprintf_task v.nanos; created_at = v.created_at }

    -- checkTriggers past the call of the trigger's function.
    abbrev pub submit :
        Visit
        → TriggerSource
        → ℕ
        → TaskTrigger
        → (ℕ → Task) × Option TriggerError
        → Outcome TaskTrigger
    submit v s p t (heap, some e) = returns (record t { heap = heap })
    submit v s p t (heap, none) = send v s p (record t { heap = update heap p (stamp v (heap p)) })

    unfoldable pub check_trigger : Visit → TaskTrigger → Outcome TaskTrigger
    check_trigger v t = elim (GoMap.get t.triggers v.key) [
      | none ↦ returns t
      | some s ↦ if not s.enabled then returns t else elim v.returned [
        | none ↦ returns t
        | some p ↦ submit v s p t (validate_trigger t.config (some p) t.heap)
      ]
    ]

    -- One call of checkTriggers by the goroutine of `run`.
    unfoldable pub check_triggers : List Visit → TaskTrigger → Outcome TaskTrigger
    check_triggers [] t = returns t
    check_triggers (v ∷ vs) t = and_then (check_trigger v t) (check_triggers vs)

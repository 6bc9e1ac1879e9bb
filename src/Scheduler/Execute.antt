-- ===== src/Scheduler/Execute.antt =====
-- internal/core/scheduler.go: the scheduling goroutine, the goroutines that wait for a task's
-- context, the clean-up of active tasks and the event handler.
use go_control.Prelude.{
  ℕ, suc, ◌-◌, String, Bool, true, false, not, ◌&&◌, Option, none, some, List, [], ◌∷◌, str_eq, ltb,
  ◌==◌, if◌then◌else◌,
}
use go_control.GoMap
use go_control.GoMap.{GoMap}
use go_control.Channel.{delivered, full, panicked, try_send}
use go_control.Types.{Task, TaskStatus, running, completed, failed}
use go_control.Events.{
  task, Payload, task_event, Event, event_type_system_start, event_type_system_stop,
  event_type_task_request, event_type_timer_tick,
}
use go_control.Outcome.{Outcome, returns, panics}
use go_control.Scheduler.{Scheduler, Error, invalid_task_event, write, schedule_task, get_next_task}

-- The task becomes active and running, with a new context.
abbrev pub activate : ℕ → ℕ → Scheduler → Scheduler
activate p now s =
    let t = s.heap p in
    let started = record t {
      status = running;
      started_at = some now;
      cancel_func = some s.next_ctx;
    } in
    record (write p started s) {
      active_tasks = GoMap.put s.active_tasks t.id p;
      next_ctx = suc s.next_ctx;
    }

-- The `default` of the send: the task is rejected.
abbrev pub reject : ℕ → ℕ → Scheduler → Scheduler
reject p now s =
    let t = s.heap p in
    let refused = record t {
      status = failed;
      error = "task channel full";
      completed_at = some now;
    } in
    record (write p refused s) { active_tasks = GoMap.remove s.active_tasks t.id }

-- In one step; the source releases the scheduler's lock between `activate` and the send.
unfoldable pub execute_task : ℕ → ℕ → Scheduler → Outcome Scheduler
execute_task p now s =
    let a = activate p now s in
    elim (try_send s.task_chan p) [
      | delivered c ↦ returns (record a { task_chan = c; watchers = (p, s.next_ctx) ∷ s.watchers })
      | full ↦ returns (reject p now a)
      | panicked ↦ panics
    ]

-- One round of `schedule` while the context is not done; with no task the goroutine sleeps.
unfoldable pub schedule_round : ℕ → Scheduler → Outcome Scheduler
schedule_round now s =
    let (chosen, r) = get_next_task s in
    elim chosen [ some p ↦ execute_task p now r | none ↦ returns r ]

abbrev drop_watcher : ℕ → List (ℕ × ℕ) → List (ℕ × ℕ)
drop_watcher c [] = []
drop_watcher c ((p, d) ∷ ws) = let rest = drop_watcher c ws in if d == c then ws else (p, d) ∷ rest

-- What the goroutine of task `p` does when its context is done, by its deadline or cancelled.
unfoldable pub watch_done : ℕ → ℕ → Bool → ℕ → Scheduler → Scheduler
watch_done p c deadline now s =
    let t = s.heap p in
    let w = record s { watchers = drop_watcher c s.watchers } in
    let ended =
      if deadline
      then record t { status = failed; error = "task timeout"; completed_at = some now }
      else record t { completed_at = some now } in
    if GoMap.has s.active_tasks t.id
    then record (write p ended w) { active_tasks = GoMap.remove s.active_tasks t.id }
    else w

abbrev pub is_finished : TaskStatus → Bool
is_finished failed = true
is_finished completed = true
is_finished _ = false

abbrev pub five_minutes : ℕ
five_minutes = 300000000000

abbrev pub is_old : ℕ → Option ℕ → Bool
is_old now none = false
is_old now (some at) = ltb five_minutes (now - at)

-- The body of the loop in processQueues, at key `k`; a key that is gone is passed over.
unfoldable pub swept : (ℕ → Task) → ℕ → String → GoMap ℕ → GoMap ℕ
swept heap now k m = elim (GoMap.get m k) [
  | some p ↦
      if is_finished (heap p).status && is_old now (heap p).completed_at
      then GoMap.remove m (heap p).id
      else m
  | none ↦ m
]

-- The loop over the keys, in the order in which `range` takes them.
unfoldable pub sweep : (ℕ → Task) → ℕ → List String → GoMap ℕ → GoMap ℕ
sweep heap now [] m = m
sweep heap now (k ∷ order) m = sweep heap now order (swept heap now k m)

unfoldable pub process_queues : List String → ℕ → Scheduler → Scheduler
process_queues order now s =
    if not s.is_running
    then s
    else record s { active_tasks = sweep s.heap now order s.active_tasks }

-- The branch for task requests: the event must carry a `*types.Task`.
unfoldable pub request : Payload → Scheduler → Scheduler × Option Error
request (task_event id kind (task p)) s = schedule_task p s
request _ s = (s, some invalid_task_event)

unfoldable pub handle_event : Event → List String → ℕ → Scheduler → Scheduler × Option Error
handle_event e order now s =
    if str_eq e.kind event_type_system_start
    then (s, none)
    else if str_eq e.kind event_type_system_stop
    then (s, none)
    else if str_eq e.kind event_type_task_request
    then request e.payload s
    else if str_eq e.kind event_type_timer_tick
    then (process_queues order now s, none)
    else (s, none)

-- ===== src/Scheduler.antt =====
-- internal/core/scheduler.go: the task queues and the task scheduler. Each operation runs under
-- its lock, so it is one step. `heap` holds the `*types.Task` objects, which the queues, the map
-- of active tasks and the channel share; a context is a number, and `watchers` holds the
-- goroutines that `executeTask` leaves waiting for a context.
pub mod Execute
pub mod Ready
pub mod Order
pub mod Cancelling
pub mod Active
pub mod History
pub mod Invariant
pub mod Preserved
pub mod Histories
pub mod Panics
pub mod Execution
mod Examples
use go_control.Prelude.{
  ℕ, ◌+◌, String, Bool, true, false, not, Option, none, some, List, [], ◌∷◌, ◌++◌, str_eq,
  if◌then◌else◌, update,
}
use go_control.GoMap
use go_control.GoMap.{GoMap}
use go_control.Channel.{Channel, make, close}
use go_control.Outcome.{Outcome, returns, panics}
use go_control.Types.{
  Task, TaskStatus, TaskPriority, emergency, high, medium, low, other, pending, running, paused,
  cancelled,
}

pub data Error : Type 0 where
  already_running not_running invalid_task_event : Error
  task_not_found : String → Error

pub record Scheduler : Type 0 where
  pub heap : ℕ → Task
  pub emergency_queue : List ℕ
  pub high_priority_queue : List ℕ
  pub medium_priority_queue : List ℕ
  pub low_priority_queue : List ℕ
  pub active_tasks : GoMap ℕ
  pub task_chan : Channel ℕ
  pub is_running : Bool
  pub next_ctx : ℕ
  pub cancelled_ctx : List ℕ
  pub watchers : List (ℕ × ℕ)

-- TaskQueue.Push
abbrev pub push : List ℕ → ℕ → List ℕ
push q p = q ++ p ∷ []

-- TaskQueue.Remove: the first task with this id, and whether there was one.
unfoldable pub remove : (ℕ → Task) → String → List ℕ → List ℕ × Bool
remove heap id [] = ([], false)
remove heap id (p ∷ q) =
    let (rest, found) = remove heap id q in
    if str_eq (heap p).id id then (q, true) else (p ∷ rest, found)

unfoldable pub new_scheduler : (ℕ → Task) → Scheduler
new_scheduler heap = record {
  heap = heap;
  emergency_queue = [];
  high_priority_queue = [];
  medium_priority_queue = [];
  low_priority_queue = [];
  active_tasks = GoMap.empty;
  task_chan = make 100;
  is_running = false;
  next_ctx = 0;
  cancelled_ctx = [];
  watchers = [];
}

unfoldable pub start : Scheduler → Scheduler × Option Error
start s = if s.is_running then (s, some already_running) else (record s { is_running = true }, none)

-- `close` of a closed channel panics.
unfoldable pub stop : Scheduler → Outcome (Scheduler × Option Error)
stop s =
    if not s.is_running
    then returns (s, some not_running)
    else if s.task_chan.closed
    then panics
    else returns (record s { task_chan = close s.task_chan; is_running = false }, none)

unfoldable pub enqueue : TaskPriority → ℕ → Scheduler → Scheduler
enqueue emergency p s = record s { emergency_queue = push s.emergency_queue p }
enqueue high p s = record s { high_priority_queue = push s.high_priority_queue p }
enqueue medium p s = record s { medium_priority_queue = push s.medium_priority_queue p }
enqueue low p s = record s { low_priority_queue = push s.low_priority_queue p }
enqueue (other n) p s = record s { medium_priority_queue = push s.medium_priority_queue p }

-- ScheduleTask past its guard.
abbrev pub admit : ℕ → Scheduler → Scheduler
admit p s =
    enqueue (s.heap p).priority p
      (record s { heap = update s.heap p (record (s.heap p) { status = pending }) })

abbrev pub write : ℕ → Task → Scheduler → Scheduler
write p t s = record s { heap = update s.heap p t }

unfoldable pub schedule_task : ℕ → Scheduler → Scheduler × Option Error
schedule_task p s = if not s.is_running then (s, some not_running) else (admit p s, none)

-- `task.CancelFunc()`, if it is set
abbrev pub call_cancel : Option ℕ → List ℕ → List ℕ
call_cancel none cs = cs
call_cancel (some c) cs = c ∷ cs

-- The task is marked as cancelled and leaves the map of active tasks.
cancel_active : String → ℕ → ℕ → Scheduler → Scheduler
cancel_active id p now s =
    let t = s.heap p in
    let w = write p (record t { status = cancelled; completed_at = some now }) s in
    record w {
      cancelled_ctx = call_cancel t.cancel_func s.cancelled_ctx;
      active_tasks = GoMap.remove s.active_tasks id;
    }

-- The chain of `Remove(taskID) || …`: a later queue is left alone once a task is found.
cancel_queued : String → Scheduler → Scheduler × Option Error
cancel_queued id s =
    let (e, in_e) = remove s.heap id s.emergency_queue in
    let (h, in_h) = remove s.heap id s.high_priority_queue in
    let (m, in_m) = remove s.heap id s.medium_priority_queue in
    let (l, in_l) = remove s.heap id s.low_priority_queue in
    if in_e
    then (record s { emergency_queue = e }, none)
    else if in_h
    then (record s { high_priority_queue = h }, none)
    else if in_m
    then (record s { medium_priority_queue = m }, none)
    else if in_l
    then (record s { low_priority_queue = l }, none)
    else (s, some (task_not_found id))

unfoldable pub cancel_task : String → ℕ → Scheduler → Scheduler × Option Error
unfolding cancel_active cancel_queued
cancel_task id now s = elim (GoMap.get s.active_tasks id) [
  | some p ↦ (cancel_active id p now s, none)
  | none ↦ cancel_queued id s
]

-- PauseTask and ResumeTask differ in the status that they write.
pub set_active_status : TaskStatus → String → Scheduler → Scheduler × Option Error
set_active_status status id s = elim (GoMap.get s.active_tasks id) [
  | some p ↦ (write p (record (s.heap p) { status = status }) s, none)
  | none ↦ (s, some (task_not_found id))
]

unfoldable pub pause_task : String → Scheduler → Scheduler × Option Error
unfolding set_active_status
pause_task = set_active_status paused

unfoldable pub resume_task : String → Scheduler → Scheduler × Option Error
unfolding set_active_status
resume_task = set_active_status running

unfoldable pub get_task_status : String → Scheduler → TaskStatus × Option Error
get_task_status id s = elim (GoMap.get s.active_tasks id) [
  | some p ↦ ((s.heap p).status, none)
  | none ↦ (pending, some (task_not_found id))
]

-- One queue after the other, in the order of the four tests.
next_of : List ℕ → List ℕ → List ℕ → List ℕ → Scheduler → Option ℕ × Scheduler
next_of (p ∷ e) h m l s = (some p, record s { emergency_queue = e })
next_of [] (p ∷ h) m l s = (some p, record s { high_priority_queue = h })
next_of [] [] (p ∷ m) l s = (some p, record s { medium_priority_queue = m })
next_of [] [] [] (p ∷ l) s = (some p, record s { low_priority_queue = l })
next_of [] [] [] [] s = (none, s)

-- getNextTask: `Size() > 0` and then `Pop()`, with no other goroutine between the two.
unfoldable pub get_next_task : Scheduler → Option ℕ × Scheduler
unfolding next_of
get_next_task s =
    next_of s.emergency_queue s.high_priority_queue s.medium_priority_queue s.low_priority_queue s

-- ===== src/Executor.antt =====
-- internal/core/executor.go: the command executor. A device is a number, and what its methods
-- answer is an argument of the call that asks; `writes` records the calls of `device.Write`, and
-- `disconnects` those of `device.Disconnect`.
pub mod Handling
mod Examples
use Prim.Native.String.{◌++◌ as append}
use go_control.Prelude.{
  ℕ, String, Bool, true, false, not, Option, none, some, List, ◌∷◌, ◌++◌, if◌then◌else◌,
}
use go_control.GoMap
use go_control.GoMap.{GoMap}
use go_control.Outcome.{Outcome, returns, and_then}
use go_control.Types.{MotionCommand}
use go_control.Queue
use go_control.Queue.{ExecutionQueue, QueueError}
use go_control.Queue.Marking.{mark_command_started, mark_command_completed}

pub data ExecutorError : Type 0 where
  already_running not_running : ExecutorError
  queue_error : QueueError → ExecutorError
  device_exists device_not_found connect_failed : String → ExecutorError

pub record CommandExecutor : Type 0 where
  pub devices : GoMap ℕ
  pub queue : ExecutionQueue
  pub is_running : Bool
  pub writes : List (ℕ × MotionCommand)
  pub disconnects : List ℕ

abbrev pub queue_result : Option QueueError → Option ExecutorError
queue_result none = none
queue_result (some e) = some (queue_error e)

abbrev pub with_queue :
    CommandExecutor → ExecutionQueue × Option QueueError → CommandExecutor × Option ExecutorError
with_queue ce (q, e) = (record ce { queue = q }, queue_result e)

-- The executor counts as running also where the queue refuses to start.
unfoldable pub start : CommandExecutor → CommandExecutor × Option ExecutorError
start ce =
    if ce.is_running
    then (ce, some already_running)
    else with_queue (record ce { is_running = true }) (Queue.start ce.queue)

-- An error of the queue is only logged.
unfoldable pub stop : CommandExecutor → Outcome (CommandExecutor × Option ExecutorError)
stop ce =
    if not ce.is_running
    then returns (ce, some not_running)
    else and_then (Queue.stop ce.queue) (λ r. returns (
      record ce {
        queue = r.0;
        is_running = false;
        disconnects = GoMap.values ce.devices ++ ce.disconnects;
      },
      none,
    ))

unfoldable pub execute_command :
    MotionCommand → ℕ → CommandExecutor → Outcome (CommandExecutor × Option ExecutorError)
execute_command cmd now ce =
    if not ce.is_running
    then returns (ce, some not_running)
    else and_then (Queue.push cmd now ce.queue) (λ r. returns (with_queue ce r))

-- `connected` is the error that `device.Connect()` returns.
unfoldable pub add_device :
    String → ℕ → Option String → CommandExecutor → CommandExecutor × Option ExecutorError
add_device id device connected ce = elim (GoMap.get ce.devices id) [
  | some d ↦ (ce, some (device_exists id))
  | none ↦ elim connected [
    | some e ↦ (ce, some (connect_failed e))
    | none ↦ (record ce { devices = GoMap.put ce.devices id device }, none)
  ]
]

unfoldable pub remove_device : String → CommandExecutor → CommandExecutor × Option ExecutorError
remove_device id ce = elim (GoMap.get ce.devices id) [
  | none ↦ (ce, some (device_not_found id))
  | some d ↦
      (record ce { devices = GoMap.remove ce.devices id; disconnects = d ∷ ce.disconnects }, none)
]

unfoldable pub get_device : String → CommandExecutor → Option ℕ × Option ExecutorError
get_device id ce = elim (GoMap.get ce.devices id) [
  | none ↦ (none, some (device_not_found id))
  | some d ↦ (some d, none)
]

abbrev pub not_found_text : String → String
not_found_text id = append "device " (append id " not found")

abbrev pub not_connected_text : String → String
not_connected_text id = append "device " (append id " is not connected")

-- MarkCommandCompleted, whose error the executor drops.
abbrev pub complete : String → Option String → ℕ → CommandExecutor → Outcome CommandExecutor
complete id err now ce =
    and_then (mark_command_completed id err now ce.queue) (λ r. returns (record ce { queue = r.0 }))

-- processCommand once the command is marked as started: `connected` and `result` are the answers
-- of `device.Status()` and `device.Write(...)`.
unfoldable pub run_on_device :
    MotionCommand → Bool → Option String → ℕ → CommandExecutor → Outcome CommandExecutor
run_on_device cmd connected result now ce = elim (GoMap.get ce.devices cmd.device_id) [
  | none ↦ complete cmd.id (some (not_found_text cmd.device_id)) now ce
  | some d ↦
      if not connected
      then complete cmd.id (some (not_connected_text cmd.device_id)) now ce
      else complete cmd.id result now (record ce { writes = (d, cmd) ∷ ce.writes })
]

-- The rest of processCommand: an error of MarkCommandStarted ends it.
abbrev pub after_start :
    MotionCommand
    → Bool
    → Option String
    → ℕ
    → CommandExecutor
    → ExecutionQueue × Option QueueError
    → Outcome CommandExecutor
after_start cmd connected result now ce (q, some e) = returns (record ce { queue = q })
after_start cmd connected result now ce (q, none) =
    run_on_device cmd connected result now (record ce { queue = q })

unfoldable pub process_command :
    ℕ → Bool → Option String → ℕ → CommandExecutor → Outcome CommandExecutor
process_command p connected result now ce =
    let cmd = (ce.queue.heap p).command in
    after_start cmd connected result now ce (mark_command_started cmd.id now ce.queue)

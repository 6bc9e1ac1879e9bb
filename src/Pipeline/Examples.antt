-- ===== src/Pipeline/Examples.antt =====
-- internal/core/queue.go and executor.go: a command on its way, and the theorem at it.
use go_control.Prelude.{ℕ, ◌≡◌, refl, true, none, List, [], ◌∷◌, length}
use go_control.GoMap
use go_control.Outcome.{Outcome, returns, Holds}
use go_control.Channel.{try_send, receive}
use go_control.Samples.{home, no_object}
use go_control.Queue.{new_execution_queue, push}
use go_control.Queue.Marking.{
  mark_command_sent, mark_command_started, mark_command_completed, with_context,
}
use go_control.Executor.{execute_command, add_device, process_command, run_on_device}
use go_control.Pipeline.{
  Pipeline, Action, executes, adds_device, dispatches, takes, marks, processes, step, run,
}
use go_control.Pipeline.Never.{IsIdle, run-no_writes}

-- A running executor with its queue; no device yet.
abbrev idle : Pipeline
idle = record {
  executor = record {
    devices = GoMap.empty;
    queue = record (new_execution_queue (λ _. no_object) 100) { is_running = true };
    is_running = true;
    writes = [];
    disconnects = [];
  };
  marking = [];
  waiting = [];
  processing = [];
}

idle-IsIdle : IsIdle idle
unfolding new_execution_queue
idle-IsIdle = record {
  no_writes = refl;
  no_commands = refl;
  nothing_queued = refl;
  no_marking = refl;
  no_waiting = refl;
  no_processing = refl;
}

-- The device is there, the command is sent, taken by the executor and processed.
abbrev one_command : List Action
one_command = adds_device "x" 1 none ∷ executes home 5 ∷ takes ∷ processes 0 true none 6 ∷ []

run-no_writes_example : Holds (λ r. r.executor.writes ≡ []) (run one_command idle)
run-no_writes_example = run-no_writes one_command idle idle-IsIdle (tt, (refl, (tt, (tt, tt))))

abbrev writes_of : Outcome Pipeline → ℕ
writes_of (returns l) = length l.executor.writes
writes_of _ = 0

-- With an id that is pushed twice, the second command is written to the device: the goroutine of
-- the first marks the second as sent, for both have the same id.
abbrev twice : List Action
twice =
    adds_device "x" 1 none
    ∷ executes home 5
    ∷ executes home 6
    ∷ dispatches
    ∷ marks 0 7
    ∷ takes
    ∷ processes 0 true none 8
    ∷ []

twice_writes : writes_of (run twice idle) ≡ 1
unfolding run step new_execution_queue push try_send receive execute_command add_device
    process_command run_on_device with_context mark_command_sent mark_command_started
    mark_command_completed GoMap.get GoMap.put GoMap.empty GoMap.size
twice_writes = refl

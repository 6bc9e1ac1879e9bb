-- ===== src/Queue.antt =====
-- internal/core/queue.go: the execution queue. Each operation runs under its locks, so it is one
-- step. `heap` holds the `*QueuedCommand` objects, which the map and the channels share; `next` is
-- the first pointer that is not in use. A context is a number.
pub mod Marking
pub mod Bounds
pub mod Accepting
pub mod TaskIds
mod Examples
use Prim.Native.Char.{code}
use go_control.Prelude.{
  ℕ, suc, ◌+◌, String, Bool, true, false, not, Option, none, some, List, [], ◌∷◌, ◌++◌, leb, ◌==◌,
  if◌then◌else◌, update,
}
use go_control.GoMap
use go_control.GoMap.{GoMap}
use go_control.Outcome.{Outcome, returns, panics, deadlocks}
use go_control.Channel.{Channel, delivered, full, panicked, make, try_send, close}
use go_control.Types.{MotionCommand}

pub data CommandStatus : Type 0 where
  pending sent executing completed failed timeout : CommandStatus

pub record QueuedCommand : Type 0 where
  pub command : MotionCommand
  pub status : CommandStatus
  pub added_at : ℕ
  pub sent_at : Option ℕ
  pub started_at : Option ℕ
  pub completed_at : Option ℕ
  pub error : String
  pub task_id : String
  pub cancel_func : Option ℕ

pub data QueueError : Type 0 where
  already_running not_running queue_full no_pending : QueueError
  command_not_found not_pending not_sent no_commands_for_task : String → QueueError

pub record ExecutionQueue : Type 0 where
  pub heap : ℕ → QueuedCommand
  pub next : ℕ
  pub commands : GoMap ℕ
  pub task_commands : GoMap (List String)
  pub send_chan : Channel ℕ
  pub complete_chan : Channel ℕ
  pub max_size : ℕ
  pub is_running : Bool
  pub next_ctx : ℕ
  pub cancelled_ctx : List ℕ

unfoldable pub new_execution_queue : (ℕ → QueuedCommand) → ℕ → ExecutionQueue
new_execution_queue heap max_size = record {
  heap = heap;
  next = 0;
  commands = GoMap.empty;
  task_commands = GoMap.empty;
  send_chan = make 10;
  complete_chan = make 10;
  max_size = max_size;
  is_running = false;
  next_ctx = 0;
  cancelled_ctx = [];
}

unfoldable pub start : ExecutionQueue → ExecutionQueue × Option QueueError
start q = if q.is_running then (q, some already_running) else (record q { is_running = true }, none)

-- The calls of `CancelFunc` in a loop over commands.
abbrev pub cancel_all : (ℕ → QueuedCommand) → List ℕ → List ℕ → List ℕ
cancel_all heap [] cs = cs
cancel_all heap (p ∷ ps) cs =
    cancel_all heap ps (elim (heap p).cancel_func [ none ↦ cs | some c ↦ c ∷ cs ])

-- `close` of a closed channel panics.
unfoldable pub stop : ExecutionQueue → Outcome (ExecutionQueue × Option QueueError)
stop q =
    if not q.is_running
    then returns (q, some not_running)
    else if q.send_chan.closed
    then panics
    else if q.complete_chan.closed
    then panics
    else returns (
      record q {
        cancelled_ctx = cancel_all q.heap (GoMap.values q.commands) q.cancelled_ctx;
        send_chan = close q.send_chan;
        complete_chan = close q.complete_chan;
        is_running = false;
      },
      none,
    )

-- The text up to the first dash; the whole text if there is none.
pub extract_task_id : String → String
extract_task_id String.[] = String.[]
extract_task_id (String.◌∷◌ c s) =
    let rest = extract_task_id s in if code c == b'-' then String.[] else String.◌∷◌ c rest

abbrev pub list_or_nil : Option (List String) → List String
list_or_nil none = []
list_or_nil (some ids) = ids

abbrev pub queued : MotionCommand → ℕ → QueuedCommand
queued cmd now = record {
  command = cmd;
  status = pending;
  added_at = now;
  sent_at = none;
  started_at = none;
  completed_at = none;
  error = "";
  task_id = extract_task_id cmd.id;
  cancel_func = none;
}

-- The new object, and the entries for it in both maps.
abbrev pub added : MotionCommand → ℕ → ExecutionQueue → ExecutionQueue
added cmd now q =
    let task_id = extract_task_id cmd.id in
    let ids = list_or_nil (GoMap.get q.task_commands task_id) in
    record q {
      heap = update q.heap q.next (queued cmd now);
      next = suc q.next;
      commands = GoMap.put q.commands cmd.id q.next;
      task_commands = GoMap.put q.task_commands task_id (ids ++ cmd.id ∷ []);
    }

-- With the send channel full, `Push` takes `commandsLock`, which it holds already.
unfoldable pub push :
    MotionCommand → ℕ → ExecutionQueue → Outcome (ExecutionQueue × Option QueueError)
push cmd now q =
    if not q.is_running
    then returns (q, some not_running)
    else if leb q.max_size (GoMap.size q.commands)
    then returns (q, some queue_full)
    else elim (try_send q.send_chan q.next) [
      | delivered c ↦ returns (record (added cmd now q) { send_chan = c }, none)
      | full ↦ deadlocks
      | panicked ↦ panics
    ]

abbrev pub is_pending : CommandStatus → Bool
is_pending pending = true
is_pending _ = false

abbrev pub is_sent : CommandStatus → Bool
is_sent sent = true
is_sent _ = false

-- Pop and Peek, which have the same text: the first pending command in the order that `range`
-- takes. Neither removes it.
unfoldable pub peek : List String → ExecutionQueue → Option MotionCommand × Option QueueError
peek [] q = (none, some no_pending)
peek (k ∷ order) q =
    let rest = peek order q in
    elim (GoMap.get q.commands k) [
      | none ↦ rest
      | some p ↦ if is_pending (q.heap p).status then (some (q.heap p).command, none) else rest
    ]

unfoldable pub size : ExecutionQueue → ℕ
size q = GoMap.size q.commands

unfoldable pub clear : ExecutionQueue → ExecutionQueue × Option QueueError
clear q = if not q.is_running then (q, some not_running) else (
  record q {
    cancelled_ctx = cancel_all q.heap (GoMap.values q.commands) q.cancelled_ctx;
    commands = GoMap.empty;
    task_commands = GoMap.empty;
  },
  none,
)

-- The loop of RemoveByTaskID over the ids of the task, and its body.
unfoldable pub drop_command : String → ExecutionQueue → ExecutionQueue
drop_command id q = elim (GoMap.get q.commands id) [
  | none ↦ q
  | some p ↦ record q {
    cancelled_ctx = cancel_all q.heap (p ∷ []) q.cancelled_ctx;
    commands = GoMap.remove q.commands id;
  }
]

unfoldable pub remove_commands : List String → ExecutionQueue → ExecutionQueue
remove_commands [] q = q
remove_commands (id ∷ ids) q = remove_commands ids (drop_command id q)

-- It returns no error, also where the task has no commands.
unfoldable pub remove_by_task_id : String → ExecutionQueue → ExecutionQueue
remove_by_task_id task_id q = elim (GoMap.get q.task_commands task_id) [
  | none ↦ q
  | some ids ↦
      let r = remove_commands ids q in
      record r { task_commands = GoMap.remove r.task_commands task_id }
]

unfoldable pub present : ExecutionQueue → List String → List MotionCommand
present q [] = []
present q (id ∷ ids) =
    let rest = present q ids in
    elim (GoMap.get q.commands id) [ none ↦ rest | some p ↦ (q.heap p).command ∷ rest ]

unfoldable pub get_by_task_id : String → ExecutionQueue → List MotionCommand × Option QueueError
get_by_task_id task_id q = elim (GoMap.get q.task_commands task_id) [
  | none ↦ ([], some (no_commands_for_task task_id))
  | some ids ↦ (present q ids, none)
]

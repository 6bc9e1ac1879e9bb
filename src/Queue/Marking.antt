-- ===== src/Queue/Marking.antt =====
-- internal/core/queue.go: the marks of a command's progress, the goroutines that dispatch commands
-- and clean up completed ones.
use go_control.Prelude.{
  ℕ, suc, String, Bool, true, false, ◌||◌, Option, none, some, List, [], ◌∷◌, str_eq, if◌then◌else◌,
  update,
}
use go_control.GoMap
use go_control.Outcome.{Outcome, returns, panics}
use go_control.Channel.{delivered, full, panicked, try_send}
use go_control.Queue.{
  ExecutionQueue, QueuedCommand, QueueError, CommandStatus, sent, executing, completed, failed,
  command_not_found, not_pending, not_sent, is_pending, is_sent,
}

abbrev pub write : ℕ → QueuedCommand → ExecutionQueue → ExecutionQueue
write p c q = record q { heap = update q.heap p c }

unfoldable pub mark_command_sent : String → ℕ → ExecutionQueue → ExecutionQueue × Option QueueError
mark_command_sent id now q = elim (GoMap.get q.commands id) [
  | none ↦ (q, some (command_not_found id))
  | some p ↦
      if is_pending (q.heap p).status
      then (write p (record (q.heap p) { status = sent; sent_at = some now }) q, none)
      else (q, some (not_pending id))
]

unfoldable pub mark_command_started :
    String → ℕ → ExecutionQueue → ExecutionQueue × Option QueueError
mark_command_started id now q = elim (GoMap.get q.commands id) [
  | none ↦ (q, some (command_not_found id))
  | some p ↦
      if is_sent (q.heap p).status
      then (write p (record (q.heap p) { status = executing; started_at = some now }) q, none)
      else (q, some (not_sent id))
]

-- The outcome of a command: `none` is a nil error.
abbrev pub finished : Option String → ℕ → QueuedCommand → QueuedCommand
finished none now c = record c { completed_at = some now; status = completed }
finished (some e) now c = record c { completed_at = some now; status = failed; error = e }

-- A full channel drops the completion; a closed one panics.
unfoldable pub mark_command_completed :
    String → Option String → ℕ → ExecutionQueue → Outcome (ExecutionQueue × Option QueueError)
mark_command_completed id err now q = elim (GoMap.get q.commands id) [
  | none ↦ returns (q, some (command_not_found id))
  | some p ↦
      let w = write p (finished err now (q.heap p)) q in
      elim (try_send q.complete_chan p) [
        | delivered c ↦ returns (record w { complete_chan = c }, none)
        | full ↦ returns (w, none)
        | panicked ↦ panics
      ]
]

-- sendCommandToExecutor, up to the start of its goroutine: the command gets a context.
unfoldable pub with_context : ℕ → ExecutionQueue → ExecutionQueue
with_context p q = record (write p (record (q.heap p) { cancel_func = some q.next_ctx }) q) {
  next_ctx = suc q.next_ctx;
}

-- `append(commands[:i], commands[i+1:]...)` at the first `id`
abbrev pub without_id : String → List String → List String
without_id id [] = []
without_id id (k ∷ ks) = let rest = without_id id ks in if str_eq k id then ks else k ∷ rest

abbrev pub holds_id : String → List String → Bool
holds_id id [] = false
holds_id id (k ∷ ks) = str_eq k id || holds_id id ks

-- The task's list loses the id, and the task its entry when the list is empty then.
forget : String → String → GoMap.GoMap (List String) → GoMap.GoMap (List String)
forget task_id id m = elim (GoMap.get m task_id) [
  | none ↦ m
  | some ids ↦
      if holds_id id ids
      then (elim (without_id id ids) [
        | [] ↦ GoMap.remove m task_id
        | k ∷ ks ↦ GoMap.put m task_id (k ∷ ks)
      ])
      else m
]

abbrev pub is_done : CommandStatus → Bool
is_done completed = true
is_done failed = true
is_done _ = false

-- `p` is what came out of the completion channel; the status is read off the map's own object.
unfoldable pub cleanup_completed_command : ℕ → ExecutionQueue → ExecutionQueue
unfolding forget
cleanup_completed_command p q =
    let c = q.heap p in
    elim (GoMap.get q.commands c.command.id) [
      | none ↦ q
      | some r ↦
          if is_done (q.heap r).status
          then record q {
            commands = GoMap.remove q.commands c.command.id;
            task_commands = forget c.task_id c.command.id q.task_commands;
          }
          else q
    ]

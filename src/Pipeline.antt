-- ===== src/Pipeline.antt =====
-- internal/core/queue.go and executor.go together: the goroutines that pass commands on, as steps
-- in any order. Both `ExecutionQueue.processCommands` and `CommandExecutor.executeCommands` receive
-- from the send channel, and both `handleCompletions` receive from the completion channel; each
-- value goes to one of the receivers. `Stop` and `RemoveDevice` are no steps here.
pub mod Occurrences
pub mod Facts
pub mod Effects
pub mod Unsent
pub mod Steps
pub mod Pushing
pub mod Never
mod Examples
use go_control.Prelude.{ℕ, zero, suc, String, Bool, Option, none, some, List, [], ◌∷◌, ◌++◌}
use go_control.Outcome.{Outcome, returns, and_then}
use go_control.Channel.{Channel, receive}
use go_control.Types.{MotionCommand}
use go_control.Queue.{ExecutionQueue, QueueError, clear, remove_by_task_id}
use go_control.Queue.Marking.{mark_command_sent, with_context, cleanup_completed_command}
use go_control.Executor.{CommandExecutor, execute_command, process_command, add_device, complete}

pub record Pipeline : Type 0 where
  pub executor : CommandExecutor
  -- goroutines of sendCommandToExecutor before they mark their command
  pub marking : List ℕ
  -- those that wait for the context of their command
  pub waiting : List ℕ
  -- goroutines of processCommand
  pub processing : List ℕ

pub data Action : Type 0 where
  executes : MotionCommand → ℕ → Action
  adds_device : String → ℕ → Option String → Action
  clears : Action
  removes_task : String → Action
  -- the queue, or the executor, receives from the send channel
  dispatches takes : Action
  -- the goroutine at this place of `marking` goes on
  marks : ℕ → ℕ → Action
  -- the context of a waiting goroutine is done, by its deadline or cancelled
  expires : ℕ → ℕ → Action
  abandons : ℕ → Action
  processes : ℕ → Bool → Option String → ℕ → Action
  -- the queue, or the executor, receives from the completion channel
  cleans notes : Action

-- One goroutine out of several.
abbrev pub take_at : ℕ → List ℕ → Option (ℕ × List ℕ)
take_at i [] = none
take_at zero (p ∷ ps) = some (p, ps)
take_at (suc i) (p ∷ ps) = elim (take_at i ps) [ none ↦ none | some r ↦ some (r.0, p ∷ r.1) ]

abbrev pub queue_of : Pipeline → ExecutionQueue
queue_of l = l.executor.queue

abbrev pub set_queue : ExecutionQueue → Pipeline → Pipeline
set_queue q l = record l { executor = record l.executor { queue = q } }

abbrev pub set_executor : CommandExecutor → Pipeline → Pipeline
set_executor ce l = record l { executor = ce }

-- processCommands received `p`.
abbrev pub dispatch : Option (ℕ × Channel ℕ) → Pipeline → Pipeline
dispatch none l = l
dispatch (some (p, c)) l =
    record (set_queue (with_context p (record (queue_of l) { send_chan = c })) l) {
      marking = l.marking ++ p ∷ [];
    }

-- executeCommands received `p`.
abbrev pub take : Option (ℕ × Channel ℕ) → Pipeline → Pipeline
take none l = l
take (some (p, c)) l = record (set_queue (record (queue_of l) { send_chan = c }) l) {
  processing = l.processing ++ p ∷ [];
}

abbrev pub marked : ℕ → List ℕ → Pipeline → ExecutionQueue × Option QueueError → Pipeline
marked p rest l (q, some e) = record (set_queue q l) { marking = rest }
marked p rest l (q, none) = record (set_queue q l) { marking = rest; waiting = l.waiting ++ p ∷ [] }

abbrev pub mark : Option (ℕ × List ℕ) → ℕ → Pipeline → Pipeline
mark none now l = l
mark (some (p, rest)) now l =
    marked p rest l (mark_command_sent ((queue_of l).heap p).command.id now (queue_of l))

abbrev pub expire : Option (ℕ × List ℕ) → ℕ → Pipeline → Outcome Pipeline
expire none now l = returns l
expire (some (p, rest)) now l =
    and_then (complete ((queue_of l).heap p).command.id (some "command timeout") now l.executor)
      (λ ce. returns (record (set_executor ce l) { waiting = rest }))

abbrev pub process : Option (ℕ × List ℕ) → Bool → Option String → ℕ → Pipeline → Outcome Pipeline
process none connected result now l = returns l
process (some (p, rest)) connected result now l =
    and_then (process_command p connected result now l.executor)
      (λ ce. returns (record (set_executor ce l) { processing = rest }))

abbrev pub abandon : Option (ℕ × List ℕ) → Pipeline → Pipeline
abandon none l = l
abandon (some (p, rest)) l = record l { waiting = rest }

abbrev pub clean : Option (ℕ × Channel ℕ) → Pipeline → Pipeline
clean none l = l
clean (some (p, c)) l =
    set_queue (cleanup_completed_command p (record (queue_of l) { complete_chan = c })) l

abbrev pub note : Option (ℕ × Channel ℕ) → Pipeline → Pipeline
note none l = l
note (some (p, c)) l = set_queue (record (queue_of l) { complete_chan = c }) l

unfoldable pub step : Action → Pipeline → Outcome Pipeline
step (executes cmd now) l =
    and_then (execute_command cmd now l.executor) (λ r. returns (set_executor r.0 l))
step (adds_device id d connected) l =
    returns (set_executor (add_device id d connected l.executor).0 l)
step clears l = returns (set_queue (clear (queue_of l)).0 l)
step (removes_task id) l = returns (set_queue (remove_by_task_id id (queue_of l)) l)
step dispatches l = returns (dispatch (receive (queue_of l).send_chan) l)
step takes l = returns (take (receive (queue_of l).send_chan) l)
step (marks i now) l = returns (mark (take_at i l.marking) now l)
step (expires i now) l = expire (take_at i l.waiting) now l
step (abandons i) l = returns (abandon (take_at i l.waiting) l)
step (processes i connected result now) l = process (take_at i l.processing) connected result now l
step cleans l = returns (clean (receive (queue_of l).complete_chan) l)
step notes l = returns (note (receive (queue_of l).complete_chan) l)

unfoldable pub run : List Action → Pipeline → Outcome Pipeline
run [] l = returns l
run (a ∷ rest) l = and_then (step a l) (run rest)

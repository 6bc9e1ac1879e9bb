-- ===== src/Queue/Accepting.antt =====
-- internal/core/queue.go: what Push leaves behind, for each way in which it ends.
use go_control.Prelude.{
  ℕ, suc, ◌≤◌, ◌<◌, String, ◌≡◌, ◌≢◌, refl, ◌⊎◌, inl, inr, true, false, Option, none, some, List,
  [], ◌∷◌, ◌++◌, arith, length, str_eq, if◌then◌else◌, ap, ◌∙◌, eq_iff, Bool-cases,
}
use go_control.GoMap
use go_control.GoMap.{get-put}
use go_control.Outcome.{Outcome, returns, panics, deadlocks}
use go_control.Channel.{pushed}
use go_control.Types.{MotionCommand}
use go_control.Queue.{
  ExecutionQueue, QueueError, push, added, size, queue_full, not_running, list_or_nil,
  extract_task_id, pending,
}
use go_control.Queue.Bounds.{Branch, push-Branch, stopped, refused, accepted, stuck, crashed}

-- The ids of the commands that are filed under a task.
abbrev pub ids_of : ExecutionQueue → String → List String
ids_of q task = list_or_nil (GoMap.get q.task_commands task)

-- `r` is the queue `q` with the command, as the object `q.next`.
pub record Accepted (cmd : MotionCommand) (now : ℕ) (q r : ExecutionQueue) : Type 0 where
  pub stored :
      (k : String)
      → GoMap.get r.commands k ≡ (if str_eq cmd.id k then some q.next else GoMap.get q.commands k)
  pub filed :
      (task : String)
      → ids_of r task ≡ (
          if str_eq (extract_task_id cmd.id) task
          then ids_of q task ++ cmd.id ∷ []
          else ids_of q task)
  pub holds : (r.heap q.next).command ≡ cmd
  pub waits : (r.heap q.next).status ≡ pending
  pub since : (r.heap q.next).added_at ≡ now
  pub of_task : (r.heap q.next).task_id ≡ extract_task_id cmd.id
  pub others : (p : ℕ) → q.next ≢ p → r.heap p ≡ q.heap p
  pub next_object : r.next ≡ suc q.next
  pub sends : r.send_chan.buffer ≡ q.send_chan.buffer ++ q.next ∷ []
  pub same_capacity : r.send_chan.capacity ≡ q.send_chan.capacity
  pub stays_open : r.send_chan.closed ≡ false
  pub still_runs : r.is_running ≡ true
  pub same_limit : r.max_size ≡ q.max_size
  pub same_completions : r.complete_chan ≡ q.complete_chan
  pub same_contexts : r.next_ctx ≡ q.next_ctx
  pub cancels_nothing : r.cancelled_ctx ≡ q.cancelled_ctx

-- The queue is running and below its limit.
abbrev pub HasPlace : ExecutionQueue → Type 0
HasPlace q = (q.is_running ≡ true) × (size q < q.max_size)

-- What a push has found and done, by the way in which it ends.
abbrev pub Pushed :
    MotionCommand → ℕ → ExecutionQueue → Outcome (ExecutionQueue × Option QueueError) → Type 0
Pushed cmd now q (returns (r, none)) =
    HasPlace q
    × (q.send_chan.closed ≡ false)
    × (length q.send_chan.buffer < q.send_chan.capacity)
    × Accepted cmd now q r
Pushed cmd now q (returns (r, some e)) =
    (r ≡ q)
    × (((e ≡ not_running) × (q.is_running ≡ false))
        ⊎ ((e ≡ queue_full) × (q.is_running ≡ true) × (q.max_size ≤ size q)))
Pushed cmd now q deadlocks =
    HasPlace q × (q.send_chan.closed ≡ false) × (q.send_chan.capacity ≤ length q.send_chan.buffer)
Pushed cmd now q panics = HasPlace q × (q.send_chan.closed ≡ true)

module _ (cmd : MotionCommand) (now : ℕ) (q : ExecutionQueue) where
  filed_under :
      (task : String)
      → ids_of (added cmd now q) task ≡ (
          if str_eq (extract_task_id cmd.id) task
          then ids_of q task ++ cmd.id ∷ []
          else ids_of q task)
  filed_under task =
      ap list_or_nil (get-put q.task_commands (extract_task_id cmd.id) task _)
      ∙ elim (Bool-cases (str_eq (extract_task_id cmd.id) task)) [
        | inl same ↦
            rw same
              (ap (λ t. ids_of q t ++ cmd.id ∷ []) ((eq_iff (extract_task_id cmd.id) task).0 same))
        | inr other ↦ rw other refl
      ]

  added-Accepted :
      q.is_running ≡ true
      → q.send_chan.closed ≡ false
      → Accepted cmd now q (record (added cmd now q) { send_chan = pushed q.send_chan q.next })
  added-Accepted on opened = record {
    stored = λ k. get-put q.commands cmd.id k q.next;
    filed = filed_under;
    holds = ground arith;
    waits = ground arith;
    since = ground arith;
    of_task = ground arith;
    others = λ p new. ground arith;
    next_object = refl;
    sends = refl;
    same_capacity = refl;
    stays_open = opened;
    still_runs = on;
    same_limit = refl;
    same_completions = refl;
    same_contexts = refl;
    cancels_nothing = refl;
  }

  Branch-Pushed :
      (o : Outcome (ExecutionQueue × Option QueueError)) → Branch cmd now q o → Pushed cmd now q o
  Branch-Pushed _ (stopped off) = (refl, inl (refl, off))
  Branch-Pushed _ (refused on big) = (refl, inr (refl, on, big))
  Branch-Pushed _ (accepted on small opened room) =
      ((on, small), opened, room, added-Accepted on opened)
  Branch-Pushed _ (stuck on small opened no_room) = ((on, small), opened, no_room)
  Branch-Pushed _ (crashed on small shut) = ((on, small), shut)

  -- A push that returns no error has found the queue running, below its limit and with room in its open
  -- send channel: the command is then stored under its id, its id is filed last under its task, it is
  -- a new pending object, which is last in the send channel, and nothing else has changed. One that
  -- returns an error has changed nothing, and the queue is not running or at its limit. A push that
  -- waits for ever has found the send channel full, and one that panics has found it closed.
  pub push-Pushed : Pushed cmd now q (push cmd now q)
  push-Pushed = Branch-Pushed _ (push-Branch cmd now q)

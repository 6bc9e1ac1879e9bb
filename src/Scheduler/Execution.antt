-- ===== src/Scheduler/Execution.antt =====
-- internal/core/scheduler.go: the life of an active task, from `executeTask` until its context is
-- done.
use go_control.Prelude.{
  ℕ, ◌≤◌, ◌<◌, String, ◌≡◌, ◌≢◌, refl, Bool, none, some, [], ◌∷◌, ◌++◌, arith, eq_iff, length,
  if◌then◌else◌,
}
use go_control.GoMap
use go_control.GoMap.{get-remove}
use go_control.Types.{running, failed, cancelled}
use go_control.Scheduler.{Scheduler, cancel_task, cancel_active, call_cancel}
use go_control.Scheduler.Ready.{ready}
use go_control.Scheduler.Execute.{watch_done}

-- What `executeTask` does with an open channel: the task runs, under its id, and is in the channel;
-- or, with a full channel, it failed and is not active.
pub data Executed (p now : ℕ) (s r : Scheduler) : Type 0 where
  accepted :
      length s.task_chan.buffer < s.task_chan.capacity
      → r.task_chan.buffer ≡ s.task_chan.buffer ++ p ∷ []
      → GoMap.get r.active_tasks (s.heap p).id ≡ some p
      → (r.heap p).status ≡ running
      → (r.heap p).started_at ≡ some now
      → (r.heap p).cancel_func ≡ some s.next_ctx
      → Executed p now s r
  rejected :
      s.task_chan.capacity ≤ length s.task_chan.buffer
      → r.task_chan ≡ s.task_chan
      → GoMap.get r.active_tasks (s.heap p).id ≡ none
      → (r.heap p).status ≡ failed
      → (r.heap p).error ≡ "task channel full"
      → (r.heap p).completed_at ≡ some now
      → Executed p now s r

-- When the context of a task is done while its id is active, the id leaves the map of active tasks
-- and the task has a time of completion. It has failed if the deadline has passed, and keeps its
-- status otherwise; every other task is as it was, and every other id stays active or inactive.
pub watch_done_lem :
    (p c : ℕ) (deadline : Bool) (now : ℕ) (s : Scheduler) (q : ℕ)
    → GoMap.get s.active_tasks (s.heap p).id ≡ some q
    → let r = watch_done p c deadline now s in
      (GoMap.get r.active_tasks (s.heap p).id ≡ none)
      × ((r.heap p).completed_at ≡ some now)
      × ((r.heap p).status ≡ (if deadline then failed else (s.heap p).status))
      × ((o : ℕ) → o ≢ p → r.heap o ≡ s.heap o)
      × ((k : String) → k ≢ (s.heap p).id → GoMap.get r.active_tasks k ≡ GoMap.get s.active_tasks k)
unfolding watch_done
watch_done_lem p c deadline now s q e = (
  rw (e, GoMap.has)
      (ground (
        arith,
        get-remove s.active_tasks (s.heap p).id (s.heap p).id,
        eq_iff (s.heap p).id (s.heap p).id,
      )),
  ground arith,
  ground arith,
  λ o f. ground arith,
  λ k f. ground (arith, get-remove s.active_tasks (s.heap p).id k, eq_iff (s.heap p).id k),
)

-- Cancelling an active task marks it as cancelled at that time, calls its cancel function if there
-- is one, takes its id out of the map of active tasks, and leaves the queues alone.
pub cancel_task_active :
    (id : String) (p now : ℕ) (s : Scheduler)
    → GoMap.get s.active_tasks id ≡ some p
    → let r = (cancel_task id now s).0 in
      ((cancel_task id now s).1 ≡ none)
      × (GoMap.get r.active_tasks id ≡ none)
      × ((r.heap p).status ≡ cancelled)
      × ((r.heap p).completed_at ≡ some now)
      × (r.cancelled_ctx ≡ call_cancel (s.heap p).cancel_func s.cancelled_ctx)
      × (ready r ≡ ready s)
unfolding cancel_task cancel_active
cancel_task_active id p now s e =
    rw (e, cancel_task)
      (
        refl,
        ground (arith, get-remove s.active_tasks id id, eq_iff id id),
        ground arith,
        ground arith,
        refl,
        refl,
      )

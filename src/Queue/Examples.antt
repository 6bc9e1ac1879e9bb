-- ===== src/Queue/Examples.antt =====
-- internal/core/queue.go: a queue with room for more commands than its send channel, and the
-- theorems at it.
use go_control.Prelude.{String, ◌≡◌, ◌≤◌, refl, arith, true, List, [], ◌∷◌}
use go_control.GoMap
use go_control.GoMap.{get-empty}
use go_control.Outcome.{Holds, deadlocks}
use go_control.Types.{MotionCommand}
use go_control.Samples.{home, no_object}
use go_control.Queue.{ExecutionQueue, new_execution_queue, push, size}
use go_control.Queue.Accepting.{Pushed, push-Pushed}
use go_control.Queue.Bounds.{size-push-le, push_all, push_all_deadlocks}
use go_control.Queue.TaskIds.{IsKeyed}

-- A queue that has been started, for a hundred commands; its send channel has ten places.
abbrev started : ExecutionQueue
started = record (new_execution_queue (λ _. no_object) 100) { is_running = true }

-- Eleven commands.
abbrev eleven : List MotionCommand
eleven = home ∷ home ∷ home ∷ home ∷ home ∷ home ∷ home ∷ home ∷ home ∷ home ∷ home ∷ []

started-IsKeyed : IsKeyed started
unfolding new_execution_queue
started-IsKeyed t h = ground (arith, get-empty {V = List String} t)

size-push-le_example :
    Holds (λ r. (size r.0 ≤ r.0.max_size) × (r.0.max_size ≡ 100)) (push home 5 started)
unfolding new_execution_queue size GoMap.size GoMap.empty
size-push-le_example = size-push-le home 5 started (omega arith)

push_all_deadlocks_example : push_all 5 eleven started ≡ deadlocks
unfolding new_execution_queue size GoMap.size GoMap.empty
push_all_deadlocks_example =
    push_all_deadlocks 5 eleven started refl refl (omega arith) (omega arith) (omega arith)

push-Pushed_example : Pushed home 5 started (push home 5 started)
push-Pushed_example = push-Pushed home 5 started

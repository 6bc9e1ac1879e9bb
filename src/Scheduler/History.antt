-- ===== src/Scheduler/History.antt =====
-- internal/core/scheduler.go: histories of the scheduler, as lists of the steps that callers and
-- goroutines make. `Stop` is one step, so the scheduling goroutine is between two rounds then.
use go_control.Prelude.{ℕ, String, Bool, List, [], ◌∷◌, if◌then◌else◌}
use go_control.Events.{Event}
use go_control.Outcome.{Outcome, returns, and_then}
use go_control.Scheduler.{
  Scheduler, start, stop, schedule_task, cancel_task, pause_task, resume_task,
}
use go_control.Scheduler.Execute.{schedule_round, watch_done, handle_event}

pub data Call : Type 0 where
  starts stops : Call
  schedules : ℕ → Call
  cancels : String → ℕ → Call
  pauses resumes : String → Call
  -- one round of the scheduling goroutine
  rounds : ℕ → Call
  -- the context of a task is done: its pointer, the context, whether by the deadline, the time
  ends : ℕ → ℕ → Bool → ℕ → Call
  handles : Event → List String → ℕ → Call

unfoldable pub step : Call → Scheduler → Outcome Scheduler
step starts s = returns (start s).0
step stops s = and_then (stop s) (λ r. returns r.0)
step (schedules p) s = returns (schedule_task p s).0
step (cancels id now) s = returns (cancel_task id now s).0
step (pauses id) s = returns (pause_task id s).0
step (resumes id) s = returns (resume_task id s).0
step (rounds now) s = if s.is_running then schedule_round now s else returns s
step (ends p c deadline now) s = returns (watch_done p c deadline now s)
step (handles e order now) s = returns (handle_event e order now s).0

unfoldable pub run : List Call → Scheduler → Outcome Scheduler
run [] s = returns s
run (c ∷ cs) s = and_then (step c s) (run cs)

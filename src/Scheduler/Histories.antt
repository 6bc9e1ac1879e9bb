-- ===== src/Scheduler/Histories.antt =====
-- internal/core/scheduler.go: the invariant holds along every history of the scheduler.
use go_control.Prelude.{ℕ, String, ◌≡◌, refl, not, List, [], ◌∷◌, arith, str_eq, if_holds}
use go_control.Channel.{close}
use go_control.Events.{
  Event, Payload, task_event, task, event_type_system_start, event_type_system_stop,
  event_type_task_request, event_type_timer_tick,
}
use go_control.Types.{running, paused}
use go_control.Outcome.{Holds, and_then-Holds}
use go_control.Scheduler.{Scheduler, start, stop, pause_task, resume_task}
use go_control.Scheduler.Execute.{process_queues, request, handle_event}
use go_control.Scheduler.Active.{sweep_nothing}
use go_control.Scheduler.Invariant.{Inv, KeepsInv, queues-Inv}
use go_control.Scheduler.History.{
  Call, starts, stops, schedules, cancels, pauses, resumes, rounds, ends, handles, step, run,
}
use go_control.Scheduler.Preserved.{
  schedule_task-Inv, cancel_task-Inv, set_active_status-Inv, schedule_round-Inv, watch_done-Inv,
}

-- While the invariant holds, the clean-up on a timer tick changes nothing at all: no task that is
-- failed or completed is ever found among the active ones.
pub process_queues_nothing :
    (order : List String) (now : ℕ) (s : Scheduler) → Inv s → process_queues order now s ≡ s
unfolding process_queues
process_queues_nothing order now s v =
    let same = sweep_nothing s.heap s.active_tasks v.active now order in ground arith

request-Inv : (d : Payload) (s : Scheduler) → Inv s → Inv (request d s).0
unfolding request
request-Inv (task_event id kind (task p)) s v = schedule_task-Inv p s v
request-Inv _ s v = v

handle_event-Inv :
    (e : Event) (order : List String) (now : ℕ) (s : Scheduler)
    → Inv s
    → Inv (handle_event e order now s).0
unfolding handle_event
handle_event-Inv e order now s v = if_holds KeepsInv (str_eq e.kind event_type_system_start) v (
    if_holds KeepsInv (str_eq e.kind event_type_system_stop) v (
      if_holds KeepsInv (str_eq e.kind event_type_task_request) (request-Inv e.payload s v) (
        if_holds KeepsInv (str_eq e.kind event_type_timer_tick)
          (rw (process_queues_nothing order now s v) v) v)))

start-Inv : (s : Scheduler) → Inv s → Inv (start s).0
unfolding start
start-Inv s v = if_holds KeepsInv s.is_running v (
    queues-Inv s _ v refl refl refl v.ranked.in_emergency v.ranked.in_high v.ranked.in_medium
      v.ranked.in_low)

stop-Inv : (s : Scheduler) → Inv s → Holds KeepsInv (stop s)
unfolding stop close
stop-Inv s v = if_holds (Holds KeepsInv) (not s.is_running) v (
    if_holds (Holds KeepsInv) s.task_chan.closed tt (record {
      ranked = record {
        in_emergency = v.ranked.in_emergency;
        in_high = v.ranked.in_high;
        in_medium = v.ranked.in_medium;
        in_low = v.ranked.in_low;
      };
      active = v.active;
      within = v.within;
      unfinished = v.unfinished;
    }))

pub step-Inv : (c : Call) (s : Scheduler) → Inv s → Holds Inv (step c s)
unfolding step
step-Inv starts s v = start-Inv s v
step-Inv stops s v = and_then-Holds KeepsInv Inv (stop s) _ (stop-Inv s v) (λ r w. w)
step-Inv (schedules p) s v = schedule_task-Inv p s v
step-Inv (cancels id now) s v = cancel_task-Inv id now s v
step-Inv (pauses id) s v = unfold pause_task in set_active_status-Inv paused id s refl v
step-Inv (resumes id) s v = unfold resume_task in set_active_status-Inv running id s refl v
step-Inv (rounds now) s v = if_holds (Holds Inv) s.is_running (schedule_round-Inv now s v) v
step-Inv (ends p c deadline now) s v = watch_done-Inv p c deadline now s v
step-Inv (handles e order now) s v = handle_event-Inv e order now s v

-- If the invariant holds, it holds of every state that a history reaches: each of the four queues
-- holds tasks of its own priority, the map of active tasks holds each task under its own id and none
-- that has ended, the task channel holds no more than its capacity, and no task is completed.
pub run-Inv : (cs : List Call) (s : Scheduler) → Inv s → Holds Inv (run cs s)
unfolding run
run-Inv [] s v = v
run-Inv (c ∷ cs) s v =
    and_then-Holds Inv Inv (step c s) (run cs) (step-Inv c s v) (λ r w. run-Inv cs r w)

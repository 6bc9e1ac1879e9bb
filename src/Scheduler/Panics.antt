-- ===== src/Scheduler/Panics.antt =====
-- internal/core/scheduler.go: when the scheduling goroutine panics. `Stop` closes the task channel
-- and `Start` makes no new one.
use go_control.Prelude.{
  ℕ, ◌≡◌, refl, Bool, true, false, Option, some, List, [], ◌∷◌, arith, All, if_holds, Bool-cases,
  Option-cases, inl, inr, String, str_eq, ◌∙◌, ap,
}
use go_control.GoMap
use go_control.Channel.{try_send_cases, try_send_closed, close}
use go_control.Types.{TaskStatus, TaskPriority, emergency, running, paused}
use go_control.Events.{
  Event, Payload, task_event, task, event_type_system_start, event_type_system_stop,
  event_type_task_request, event_type_timer_tick,
}
use go_control.Outcome.{panics, Returns, and_then-Returns}
use go_control.Scheduler.{
  Scheduler, Error, start, stop, schedule_task, enqueue, cancel_task, cancel_active, cancel_queued,
  pause_task, resume_task, set_active_status, get_next_task,
}
use go_control.Scheduler.Execute.{
  execute_task, schedule_round, watch_done, process_queues, request, handle_event,
}
use go_control.Scheduler.Ready.{ready, head?}
use go_control.Scheduler.Order.{get_next_task-ready, schedule_task_running, schedule_task_stopped}
use go_control.Scheduler.History.{
  Call, starts, stops, schedules, cancels, pauses, resumes, rounds, ends, handles, step, run,
}

abbrev pub IsOpen : Scheduler → Type 0
IsOpen s = s.task_chan.closed ≡ false

enqueue-chan : (k : TaskPriority) (p : ℕ) (s : Scheduler) → (enqueue k p s).task_chan ≡ s.task_chan
unfolding enqueue
enqueue-chan emergency p s = refl
enqueue-chan k p s = refl

pub execute_task-IsOpen :
    (p now : ℕ) (s : Scheduler) → IsOpen s → Returns IsOpen (execute_task p now s)
unfolding execute_task
execute_task-IsOpen p now s h = elim (try_send_cases s.task_chan p) [
  | inl (shut, _) ↦ cc
  | inr (inl (_, _, e)) ↦ rw (e, execute_task) h
  | inr (inr (_, _, e)) ↦ rw (e, execute_task) h
]

get_next_task-chan : (s : Scheduler) → (get_next_task s).1.task_chan ≡ s.task_chan
unfolding get_next_task
get_next_task-chan s = ground arith

schedule_round-IsOpen : (now : ℕ) (s : Scheduler) → IsOpen s → Returns IsOpen (schedule_round now s)
unfolding schedule_round
schedule_round-IsOpen now s h = elim (Option-cases (get_next_task s).0) [
  | inl e ↦ rw (e, schedule_round) (rw (get_next_task-chan s) h)
  | inr (p, e) ↦ rw (e, schedule_round) (execute_task-IsOpen p now _ (rw (get_next_task-chan s) h))
]

schedule_task-chan : (p : ℕ) (s : Scheduler) → (schedule_task p s).0.task_chan ≡ s.task_chan
schedule_task-chan p s = elim (Bool-cases s.is_running) [
  | inl on ↦ rw (schedule_task_running p s on) (enqueue-chan (s.heap p).priority p _)
  | inr off ↦ rw (schedule_task_stopped p s off)
]

cancel_task-chan :
    (id : String) (now : ℕ) (s : Scheduler) → (cancel_task id now s).0.task_chan ≡ s.task_chan
unfolding cancel_task cancel_active cancel_queued
cancel_task-chan id now s = ground arith

request-chan : (d : Payload) (s : Scheduler) → (request d s).0.task_chan ≡ s.task_chan
unfolding request
request-chan (task_event id kind (task p)) s = schedule_task-chan p s
request-chan _ s = refl

process_queues-chan :
    (order : List String) (now : ℕ) (s : Scheduler)
    → (process_queues order now s).task_chan ≡ s.task_chan
unfolding process_queues
process_queues-chan order now s = ground arith

handle_event-chan :
    (e : Event) (order : List String) (now : ℕ) (s : Scheduler)
    → (handle_event e order now s).0.task_chan ≡ s.task_chan
unfolding handle_event
handle_event-chan e order now s = if_holds P (str_eq e.kind event_type_system_start) refl (
    if_holds P (str_eq e.kind event_type_system_stop) refl (
      if_holds P (str_eq e.kind event_type_task_request) (request-chan e.payload s)
        (if_holds P (str_eq e.kind event_type_timer_tick) (process_queues-chan order now s) refl)))
  where
    P : Scheduler × Option Error → Type 0
    P r = r.0.task_chan ≡ s.task_chan

set_active_status-chan :
    (status : TaskStatus) (id : String) (s : Scheduler)
    → (set_active_status status id s).0.task_chan ≡ s.task_chan
unfolding set_active_status
set_active_status-chan status id s = ground arith

-- No call is a `Stop`.
abbrev pub is_stop : Call → Bool
is_stop stops = true
is_stop _ = false

step-IsOpen : (c : Call) (s : Scheduler) → is_stop c ≡ false → IsOpen s → Returns IsOpen (step c s)
unfolding step pause_task resume_task
step-IsOpen starts s n h =
    unfold start in if_holds (λ (r : Scheduler × Option Error). IsOpen r.0) s.is_running h h
step-IsOpen stops s n h = cc
step-IsOpen (schedules p) s n h = rw (schedule_task-chan p s) h
step-IsOpen (cancels id now) s n h = rw (cancel_task-chan id now s) h
step-IsOpen (pauses id) s n h = rw (set_active_status-chan paused id s) h
step-IsOpen (resumes id) s n h = rw (set_active_status-chan running id s) h
step-IsOpen (rounds now) s n h =
    if_holds (Returns IsOpen) s.is_running (schedule_round-IsOpen now s h) h
step-IsOpen (ends p c deadline now) s n h =
    unfold watch_done in if_holds IsOpen (GoMap.has s.active_tasks (s.heap p).id) h h
step-IsOpen (handles e order now) s n h = rw (handle_event-chan e order now s) h

-- While the task channel has not been closed, no history without a `Stop` panics.
pub run-Returns :
    (cs : List Call) (s : Scheduler)
    → All (λ c. is_stop c ≡ false) cs
    → IsOpen s
    → Returns IsOpen (run cs s)
unfolding run
run-Returns [] s n h = h
run-Returns (c ∷ cs) s n h =
    and_then-Returns IsOpen IsOpen (step c s) (run cs) (step-IsOpen c s n.0 h)
      (λ r k. run-Returns cs r n.1 k)

closed_round_panics :
    (s : Scheduler) (now p : ℕ) (rest : List ℕ)
    → s.task_chan.closed ≡ true
    → ready s ≡ p ∷ rest
    → schedule_round now s ≡ panics
unfolding schedule_round execute_task
closed_round_panics s now p rest shut e =
    let next : (get_next_task s).0 ≡ some p = (get_next_task-ready s).0 ∙ ap head? e in
    rw (next, schedule_round)
      (rw (
        try_send_closed (get_next_task s).1.task_chan p (rw (get_next_task-chan s) shut),
        execute_task,
      ))

-- A running scheduler that has been stopped and started again panics as soon as it takes a waiting
-- task, for the task channel is still closed; it panics as well when it is stopped again.
restart_panics :
    (s : Scheduler) (now p : ℕ) (rest : List ℕ)
    → s.is_running ≡ true
    → s.task_chan.closed ≡ false
    → ready s ≡ p ∷ rest
    → (run (stops ∷ starts ∷ rounds now ∷ []) s ≡ panics)
      × (run (stops ∷ starts ∷ stops ∷ []) s ≡ panics)
unfolding run step stop start close
restart_panics s now p rest on opened e =
    let r = record s { task_chan = close s.task_chan; is_running = true } in
    (simp (on, opened, closed_round_panics r now p rest refl e), simp (on, opened))

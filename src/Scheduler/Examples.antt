-- ===== src/Scheduler/Examples.antt =====
-- internal/core/scheduler.go: a scheduler with waiting and active tasks, and the theorems at it.
use go_control.Prelude.{ℕ, zero, suc, ◌≡◌, refl, arith, true, none, List, [], ◌∷◌}
use go_control.GoMap
use go_control.GoMap.{get-empty}
use go_control.Events.{task_event, task, event_type_task_request, event_type_timer_tick}
use go_control.Outcome.{Returns, Holds}
use go_control.Types.{Task, emergency, high, medium, low, completed}
use go_control.Samples.{a_task}
use go_control.Scheduler.{Scheduler, new_scheduler, schedule_task, get_next_task}
use go_control.Scheduler.Ready.{ready, head?, tail, insert_by_rank, rank_of, IsRanked}
use go_control.Scheduler.Order.{get_next_task-ready, ready-schedule_task}
use go_control.Scheduler.History.{
  Call, starts, schedules, cancels, pauses, resumes, rounds, ends, handles, run,
}
use go_control.Scheduler.Invariant.{Inv}
use go_control.Scheduler.Histories.{run-Inv}
use go_control.Scheduler.Panics.{IsOpen, run-Returns}

abbrev tasks : ℕ → Task
tasks zero = a_task "low" low
tasks (suc zero) = a_task "stop" emergency
tasks (suc (suc zero)) = a_task "move" medium
tasks _ = a_task "other" high

-- Task 0 waits, task 2 is active.
abbrev busy : Scheduler
busy = record (new_scheduler tasks) {
  low_priority_queue = 0 ∷ [];
  active_tasks = GoMap.put GoMap.empty "move" 2;
  is_running = true;
}

abbrev day : List Call
day =
    starts
    ∷ schedules 0
    ∷ schedules 1
    ∷ rounds 5
    ∷ pauses "stop"
    ∷ resumes "stop"
    ∷ handles
        (record {
          kind = event_type_task_request;
          source = "ipc";
          payload = task_event "e" event_type_task_request (task 2);
        })
        [] 6
    ∷ rounds 7
    ∷ ends 1 0 true 8
    ∷ cancels "low" 9
    ∷ handles
        (record {
          kind = event_type_timer_tick;
          source = "clock";
          payload = task_event "t" event_type_timer_tick (task 2);
        })
        ("move" ∷ []) 10
    ∷ []

tasks_unfinished : (p : ℕ) → (tasks p).status ≡ completed → ⊥
tasks_unfinished zero e = cc
tasks_unfinished (suc zero) e = cc
tasks_unfinished (suc (suc zero)) e = cc
tasks_unfinished (suc (suc (suc p))) e = cc

new_scheduler-Inv : Inv (new_scheduler tasks)
unfolding new_scheduler
new_scheduler-Inv = record {
  ranked = record { in_emergency = tt; in_high = tt; in_medium = tt; in_low = tt };
  active = λ k p e. ground (arith, get-empty {V = ℕ} k);
  within = omega arith;
  unfinished = tasks_unfinished;
}

busy-IsRanked : IsRanked busy
unfolding new_scheduler
busy-IsRanked = record { in_emergency = tt; in_high = tt; in_medium = tt; in_low = (refl, tt) }

ready-schedule_task_example :
    (ready (schedule_task 1 busy).0 ≡ insert_by_rank (rank_of tasks) 1 (ready busy))
    × ((schedule_task 1 busy).1 ≡ none)
unfolding new_scheduler
ready-schedule_task_example = ready-schedule_task 1 busy refl busy-IsRanked

run-Inv_example : Holds Inv (run day (new_scheduler tasks))
run-Inv_example = run-Inv day (new_scheduler tasks) new_scheduler-Inv

run-Returns_example : Returns IsOpen (run day (new_scheduler tasks))
unfolding new_scheduler
run-Returns_example =
    run-Returns day (new_scheduler tasks)
      (refl, (refl, (refl, (refl, (refl, (refl, (refl, (refl, (refl, (refl, (refl, tt)))))))))))
      refl

get_next_task-ready_example :
    ((get_next_task busy).0 ≡ head? (ready busy))
    × (ready (get_next_task busy).1 ≡ tail (ready busy))
get_next_task-ready_example = get_next_task-ready busy

-- ===== src/Business/Examples.antt =====
-- internal/application/business_logic.go: an emergency stop, and the theorems at it.
use go_control.Prelude.{ℕ, String, ◌≡◌, refl, true, none, [], ◌∷◌, inr}
use go_control.GoMap
use go_control.Outcome.{returns}
use go_control.Types.{medium}
use go_control.Samples.{a_task, one_axis}
use go_control.Scheduler.{Scheduler, Error, new_scheduler}
use go_control.Scheduler.Ready.{ready, insert_by_rank}
use go_control.Business.{
  BusinessMessage, business_task, cmd_emergency_stop, execute_business_command, process_task,
}
use go_control.Business.Handling.{
  stopping, with_rank, execute_business_command-ready, process_task-business_task,
}

abbrev itoa : ℕ → String
itoa n = "7"

abbrev error_text : Error → String
error_text e = "refused"

abbrev idle : Scheduler
idle = record (new_scheduler (λ q. a_task "low" medium)) {
  medium_priority_queue = 0 ∷ [];
  is_running = true;
}

abbrev stop_message : BusinessMessage
stop_message = record { command = cmd_emergency_stop; request_id = "r1" }

execute_business_command-ready_example :
    (ready (execute_business_command itoa 3 4 error_text 1 cmd_emergency_stop idle).0
      ≡ insert_by_rank (with_rank 1 0 idle) 1 (ready idle))
    × ((execute_business_command itoa 3 4 error_text 1 cmd_emergency_stop idle).1 ≡ inr 1)
unfolding new_scheduler
execute_business_command-ready_example =
    execute_business_command-ready itoa 3 4 error_text 1 cmd_emergency_stop 0 idle stopping refl
      (record { in_emergency = tt; in_high = tt; in_medium = (refl, tt); in_low = tt })

process_task-business_task_example :
    process_task
      (λ v. "")
      (λ n. "")
      (λ s. [])
      (λ x. x)
      (λ x. 0)
      one_axis
      GoMap.empty
      5
      itoa
      (λ i. i)
      none
      (business_task itoa 3 4 error_text 1 cmd_emergency_stop)
    ≡ returns []
process_task-business_task_example =
    process_task-business_task (λ v. "") (λ n. "") (λ s. []) (λ x. x) (λ x. 0) one_axis GoMap.empty
      5 itoa (λ i. i) 3 4 1 error_text cmd_emergency_stop

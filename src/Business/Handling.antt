-- ===== src/Business/Handling.antt =====
-- internal/application/business_logic.go with internal/core/scheduler.go and
-- internal/core/tasknode_decomposer.go: what becomes of a business command.
use std.Path.{fun_ext}
use go_control.Prelude.{
  ◌≢◌, ◌==◌, sym, subst, eq_iff, if_cases, ℕ, String, ◌≡◌, refl, ap, Bool, true, false, ◌||◌,
  Option, none, some, List, [], ◌∷◌, inr, str_eq, if◌then◌else◌, if_holds, arith,
}
use go_control.GoMap.{GoMap}
use go_control.Outcome.{returns}
use go_control.Types.{SystemConfig, Float64, MotionCommand, Task}
use go_control.Decomposer.{per_axis, numbered}
use go_control.Nodes.{Value}
use go_control.NodeDecomposer
use go_control.NodeDecomposer.{decompose_task, finish_legacy}
use go_control.Scheduler.{Scheduler, Error, schedule_task, write}
use go_control.Scheduler.Ready.{ready, insert_by_rank, rank, rank_of, IsRanked, RankedBy}
use go_control.Scheduler.Order.{ready-schedule_task, write-RankedBy}
use go_control.Business.{
  BusinessMessage, business_task, execute_business_command, get_handled_commands, handle_command,
  handle_task, handle_query_status, process_task, to_execute, scheduled,
  map_business_to_command_type, map_business_to_priority, cmd_emergency_stop, cmd_safety_check,
  cmd_self_check, cmd_home, cmd_move,
}

abbrev pub among : String → List String → Bool
among c [] = false
among c (d ∷ ds) = str_eq c d || among c ds

-- How urgent a business command is, 0 being the most urgent.
pub data IsUrgency : String → ℕ → Type 0 where
  stopping : IsUrgency cmd_emergency_stop 0
  checking_safety : IsUrgency cmd_safety_check 1
  checking : IsUrgency cmd_self_check 1
  homing : IsUrgency cmd_home 2
  moving : IsUrgency cmd_move 2
  remaining :
      (cmd : String)
      → cmd ≢ cmd_emergency_stop
      → cmd ≢ cmd_safety_check
      → cmd ≢ cmd_self_check
      → cmd ≢ cmd_home
      → cmd ≢ cmd_move
      → IsUrgency cmd 3

-- The ranks of the tasks, where the task `p` has the rank `k`.
abbrev pub with_rank : ℕ → ℕ → Scheduler → ℕ → ℕ
with_rank p k s q = if p == q then k else rank (s.heap q).priority

module _ (itoa : ℕ → String) (nano now : ℕ) (error_text : Error → String) (p : ℕ) where
  -- While the scheduler runs, HandleCommand answers "success" to the commands of GetHandledCommands
  -- and "error" to every other, and the answer has the id of the request.
  pub handle_command_lem :
      (msg : BusinessMessage) (s : Scheduler)
      → s.is_running ≡ true
      → let response = (handle_command itoa nano now error_text p msg s).1 in
        (response.status ≡ (
          if among msg.command (get_handled_commands itoa nano now error_text p)
          then "success"
          else "error"))
        × (response.request_id ≡ msg.request_id)
  unfolding handle_command handle_task handle_query_status execute_business_command schedule_task
  handle_command_lem msg s h = ground (arith, h)

  rank-business_task :
      (cmd : String) (k : ℕ)
      → IsUrgency cmd k
      → rank (business_task itoa nano now error_text p cmd).priority ≡ k
  unfolding map_business_to_priority business_task
  rank-business_task _ _ stopping = refl
  rank-business_task _ _ checking_safety = refl
  rank-business_task _ _ checking = refl
  rank-business_task _ _ homing = refl
  rank-business_task _ _ moving = refl
  rank-business_task _ _ (remaining cmd a b c d e) = ground (
    arith,
    eq_iff cmd cmd_emergency_stop,
    eq_iff cmd cmd_safety_check,
    eq_iff cmd cmd_self_check,
    eq_iff cmd cmd_home,
    eq_iff cmd cmd_move,
  )

  rank_of-write :
      (cmd : String) (k : ℕ) (s : Scheduler)
      → IsUrgency cmd k
      → rank_of (write p (business_task itoa nano now error_text p cmd) s).heap ≡ with_rank p k s
  rank_of-write cmd k s u = fun_ext λ q.
      if_cases (λ (t : Task). rank t.priority ≡ (if p == q then k else rank (s.heap q).priority))
        (p == q) (λ same. rw same (rank-business_task cmd k u)) (λ other. rw other refl)

  -- While the scheduler runs and every task waits in the queue of its rank, the new task's rank being
  -- the urgency of the command, a business command puts the task behind all waiting tasks that are at
  -- least as urgent and before all that are less urgent. An emergency stop comes first, then the two
  -- checks, then a home and a move, then every other command.
  pub execute_business_command-ready :
      (cmd : String) (k : ℕ) (s : Scheduler)
      → IsUrgency cmd k
      → s.is_running ≡ true
      → RankedBy (with_rank p k s) s
      → let result = execute_business_command itoa nano now error_text p cmd s in
        (ready result.0 ≡ insert_by_rank (with_rank p k s) p (ready s)) × (result.1 ≡ inr p)
  unfolding execute_business_command
  execute_business_command-ready cmd k s u h r = go (schedule_task p with_task) (
      subst
        (λ f.
          (ready (schedule_task p with_task).0 ≡ insert_by_rank f p (ready s))
          × ((schedule_task p with_task).1 ≡ none))
        (rank_of-write cmd k s u) (ready-schedule_task p with_task h ranked))
    where
      with_task : Scheduler
      with_task = write p (business_task itoa nano now error_text p cmd) s

      ranked : IsRanked with_task
      ranked =
          write-RankedBy (rank_of with_task.heap) p (business_task itoa nano now error_text p cmd) s
            (subst (λ f. RankedBy f s) (sym (rank_of-write cmd k s u)) r)

      go :
          {X : List ℕ} (q : Scheduler × Option Error)
          → (ready q.0 ≡ X) × (q.1 ≡ none)
          → (ready (scheduled itoa nano now error_text p q).0 ≡ X)
            × ((scheduled itoa nano now error_text p q).1 ≡ inr p)
      go (t, none) (a, b) = (a, refl)
      go (t, some e) (a, b) = (a, absurd (ground (arith, b)))

module _ (show : Value → String) (show_duration : ℕ → String) (utf8 : String → List ℕ)
    (half : Float64 → Float64) (whole : Float64 → ℕ) (config : SystemConfig) (devices : GoMap ℕ)
    (now : ℕ) (itoa : ℕ → String) (clock : ℕ → ℕ) (nano created p : ℕ)
    (error_text : Error → String) where
  abbrev ExecutesNothing : Task → Option (List MotionCommand) → Type 0
  ExecutesNothing t o =
      to_execute show show_duration utf8 half whole config devices now itoa clock
        (finish_legacy show show_duration utf8 half whole config devices now itoa clock t o)
      ≡ []

  -- Of the task of a business command, whatever the command is, no motion command is ever executed.
  pub process_task-business_task :
      (cmd : String)
      → process_task show show_duration utf8 half whole config devices now itoa clock none
          (business_task itoa nano created error_text p cmd)
        ≡ returns []
  unfolding process_task decompose_task NodeDecomposer.commands_of NodeDecomposer.decompose_move
      NodeDecomposer.decompose_home NodeDecomposer.decompose_stop NodeDecomposer.decompose_jog
      per_axis numbered business_task
  process_task-business_task cmd = ap returns (
      if_holds (ExecutesNothing (business_task itoa nano created error_text p cmd))
        (str_eq kind "move_to") refl
        (if_holds (ExecutesNothing (business_task itoa nano created error_text p cmd))
          (str_eq kind "move_relative") refl
          (if_holds (ExecutesNothing (business_task itoa nano created error_text p cmd))
            (str_eq kind "home") refl
            (if_holds (ExecutesNothing (business_task itoa nano created error_text p cmd))
              (str_eq kind "stop") refl
              (if_holds (ExecutesNothing (business_task itoa nano created error_text p cmd))
                (str_eq kind "jog") refl refl)))))
    where
      kind : String
      kind = map_business_to_command_type cmd

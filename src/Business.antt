-- ===== src/Business.antt =====
-- internal/application/business_logic.go, and what internal/application/task_orchestration.go does with
-- a task that the scheduler passes on. A business task is a new object `p` of the scheduler's heap;
-- its parameters, which nothing reads, are left out. `nano` is the clock at the making of its id,
-- `itoa` prints it; `now` is the clock otherwise.
pub mod Handling
mod Examples
use Prim.Native.String.{◌++◌ as append}
use go_control.Prelude.{
  ℕ, ◌*◌, String, ◌||◌, Option, none, some, List, [], ◌∷◌, ◌⊎◌, inl, inr, str_eq, if◌then◌else◌,
}
use go_control.GoMap.{GoMap}
use go_control.Outcome.{Outcome, returns, and_then}
use go_control.Types.{
  Task, TaskPriority, TaskStatus, pending, emergency, high, medium, low, SystemConfig, Float64,
  MotionCommand, command_move_to, command_home, command_stop,
}
use go_control.Decomposer.{zero_point, straight, zero_float}
use go_control.Nodes.{Value, TaskNode, command_delay}
use go_control.NodeDecomposer.{Commands, decompose_task, one_second}
use go_control.Scheduler.{Scheduler, Error, write, schedule_task}

abbrev pub cmd_query_status : String
cmd_query_status = "query"

abbrev pub cmd_initialize : String
cmd_initialize = "initialize"

abbrev pub cmd_emergency_stop : String
cmd_emergency_stop = "stop"

abbrev pub cmd_reset : String
cmd_reset = "reset"

abbrev pub cmd_move : String
cmd_move = "move"

abbrev pub cmd_move_relative : String
cmd_move_relative = "move_relative"

abbrev pub cmd_home : String
cmd_home = "home"

abbrev pub cmd_safety_check : String
cmd_safety_check = "safety"

abbrev pub cmd_self_check : String
cmd_self_check = "self_check"

unfoldable pub map_business_to_command_type : String → String
map_business_to_command_type cmd =
    if str_eq cmd cmd_move || str_eq cmd cmd_move_relative
    then command_move_to
    else if str_eq cmd cmd_home
    then command_home
    else if str_eq cmd cmd_emergency_stop
    then command_stop
    else if str_eq cmd cmd_self_check || str_eq cmd cmd_safety_check
    then command_delay
    else command_delay

unfoldable pub map_business_to_priority : String → TaskPriority
map_business_to_priority cmd =
    if str_eq cmd cmd_emergency_stop
    then emergency
    else if str_eq cmd cmd_safety_check || str_eq cmd cmd_self_check
    then high
    else if str_eq cmd cmd_home || str_eq cmd cmd_move
    then medium
    else low

unfoldable pub map_business_to_timeout : String → ℕ
map_business_to_timeout cmd =
    if str_eq cmd cmd_emergency_stop
    then 5 * one_second
    else if str_eq cmd cmd_safety_check || str_eq cmd cmd_self_check
    then 15 * one_second
    else if str_eq cmd cmd_home
    then 30 * one_second
    else if str_eq cmd cmd_move
    then 60 * one_second
    else 30 * one_second

pub data ResponseData : Type 0 where
  no_data system_status system_config : ResponseData
  message : String → ResponseData
  templates : List String → ResponseData
  task_data : String → TaskStatus → ResponseData

pub record BusinessResponse : Type 0 where
  pub request_id : String
  pub status : String
  pub payload : ResponseData
  pub error : String
  pub timestamp : ℕ

pub record BusinessMessage : Type 0 where
  pub command : String
  pub request_id : String

-- The error of a convenience call: its prefix, and the error of the scheduler.
abbrev pub Failure : Type 0
Failure = Option (String × Error)

abbrev pub failure : String → Scheduler × (Error ⊎ ℕ) → Scheduler × Failure
failure prefix (s, inl e) = (s, some (prefix, e))
failure prefix (s, inr p) = (s, none)

module _ (itoa : ℕ → String) (nano now : ℕ) (error_text : Error → String) (p : ℕ) where
  unfoldable pub business_task : String → Task
  business_task cmd = record {
    id = append "business-" (append cmd (append "-" (itoa nano)));
    kind = map_business_to_command_type cmd;
    priority = map_business_to_priority cmd;
    status = pending;
    target = zero_point;
    velocity = straight zero_float;
    axes = [];
    created_at = now;
    started_at = none;
    completed_at = none;
    error = "";
    timeout = map_business_to_timeout cmd;
    cancel_func = none;
  }

  abbrev pub scheduled : Scheduler × Option Error → Scheduler × (Error ⊎ ℕ)
  scheduled (s, some e) = (s, inl e)
  scheduled (s, none) = (s, inr p)

  unfoldable pub execute_business_command : String → Scheduler → Scheduler × (Error ⊎ ℕ)
  execute_business_command cmd s = scheduled (schedule_task p (write p (business_task cmd) s))

  unfoldable pub self_check : Scheduler → Scheduler × Failure
  self_check s = failure "self-check failed" (execute_business_command cmd_self_check s)

  unfoldable pub emergency_stop : Scheduler → Scheduler × Failure
  emergency_stop s = failure "emergency stop failed" (execute_business_command cmd_emergency_stop s)

  unfoldable pub home_system : Scheduler → Scheduler × Failure
  home_system s = failure "home system failed" (execute_business_command cmd_home s)

  unfoldable pub initialize_system : Scheduler → Scheduler × Failure
  initialize_system s =
      failure "system initialization failed" (execute_business_command cmd_initialize s)

  unfoldable pub start_system : Scheduler → Scheduler × Failure
  start_system s = failure "system start failed" (execute_business_command cmd_initialize s)

  unfoldable pub stop_system : Scheduler → Scheduler × Failure
  stop_system s = failure "system stop failed" (execute_business_command cmd_reset s)

  unfoldable pub reset_system : Scheduler → Scheduler × Failure
  reset_system s = failure "system reset failed" (execute_business_command cmd_reset s)

  unfoldable pub safety_check : Scheduler → Scheduler × Failure
  safety_check s = failure "safety check failed" (execute_business_command cmd_safety_check s)

  abbrev pub get_handled_commands : List String
  get_handled_commands =
      cmd_query_status ∷ cmd_self_check ∷ cmd_emergency_stop ∷ cmd_home ∷ cmd_initialize
      ∷ cmd_safety_check ∷ []

  abbrev pub error_response : String → String → BusinessResponse
  error_response request text = record {
    request_id = request;
    status = "error";
    payload = no_data;
    error = text;
    timestamp = now;
  }

  abbrev pub success : String → ResponseData → BusinessResponse
  success request d = record {
    request_id = request;
    status = "success";
    payload = d;
    error = "";
    timestamp = now;
  }

  -- The answer that handleSelfCheck and the four handlers like it give. The task is read once the call has returned.
  abbrev pub answer : String → Scheduler × (Error ⊎ ℕ) → Scheduler × BusinessResponse
  answer request (s, inl e) = (s, error_response request (error_text e))
  answer request (s, inr q) = (s, success request (task_data (s.heap q).id (s.heap q).status))

  unfoldable pub handle_task : String → BusinessMessage → Scheduler → Scheduler × BusinessResponse
  handle_task cmd msg s = answer msg.request_id (execute_business_command cmd s)

  unfoldable pub handle_query_status : BusinessMessage → BusinessResponse
  handle_query_status msg = success msg.request_id system_status

  unfoldable pub handle_command : BusinessMessage → Scheduler → Scheduler × BusinessResponse
  handle_command msg s =
      if str_eq msg.command cmd_query_status
      then (s, handle_query_status msg)
      else if str_eq msg.command cmd_self_check
      then handle_task cmd_self_check msg s
      else if str_eq msg.command cmd_emergency_stop
      then handle_task cmd_emergency_stop msg s
      else if str_eq msg.command cmd_home
      then handle_task cmd_home msg s
      else if str_eq msg.command cmd_initialize
      then handle_task cmd_initialize msg s
      else if str_eq msg.command cmd_safety_check
      then handle_task cmd_safety_check msg s
      else (
        s,
        error_response msg.request_id
            (append "business logic layer cannot handle command: " msg.command),
      )

module _ (show : Value → String) (show_duration : ℕ → String) (utf8 : String → List ℕ)
    (half : Float64 → Float64) (whole : Float64 → ℕ) (config : SystemConfig) (devices : GoMap ℕ)
    (now : ℕ) (itoa : ℕ → String) (clock : ℕ → ℕ) where
  abbrev pub to_execute : Commands → List MotionCommand
  to_execute (inl e) = []
  to_execute (inr cs) = cs

  -- processTask: the commands that it passes to the service coordination, in order. An error of a
  -- command is only logged.
  unfoldable pub process_task : Option TaskNode → Task → Outcome (List MotionCommand)
  process_task root t =
      and_then
        (decompose_task show show_duration utf8 half whole config devices now itoa clock root t)
        λ r. returns (to_execute r)

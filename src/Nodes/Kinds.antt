-- ===== src/Nodes/Kinds.antt =====
-- pkg/types/types.go and tasknode.go: the commands of nodes, and the types of nodes.
use go_control.Prelude.{ℕ, String, Bool, Option}
use go_control.Types.{TaskStatus, Float64, Point}
use go_control.Nodes.Tables.{ℤ, Table}

abbrev pub command_io : String
command_io = "io"

abbrev pub command_motor_control : String
command_motor_control = "motor_control"

abbrev pub command_motor_status : String
command_motor_status = "motor_status"

abbrev pub command_delay : String
command_delay = "delay"

abbrev pub command_sequence : String
command_sequence = "sequence"

abbrev pub command_parallel : String
command_parallel = "parallel"

abbrev pub command_condition : String
command_condition = "condition"

pub record IoCommand : Type 0 where
  pub device_id : String
  pub channel : String
  pub action : String
  pub value : Float64
  pub threshold : Float64
  pub timeout : ℕ

pub record MotorCommand : Type 0 where
  pub device_id : String
  pub motor_id : String
  pub action : String
  pub speed : Float64
  pub position : Point
  pub acceleration : Float64
  pub torque : Float64
  pub direction : ℤ
  pub enable : Bool

pub record DelayCommand : Type 0 where
  pub duration : ℕ
  pub unit : String

pub record ConditionCommand : Type 0 where
  pub condition : String
  pub device_id : String
  pub channel : String
  pub target_value : Float64
  pub tolerance : Float64
  pub timeout : ℕ
  pub poll_interval : ℕ

-- BaseTaskNode but for its children.
pub record BaseTaskNode : Type 0 where
  pub id : String
  pub kind : String
  pub status : TaskStatus
  pub parameters : Table
  pub parent : Option String
  pub metadata : Table
  pub start_time : ℕ
  pub end_time : Option ℕ
  pub cancel_func : Option ℕ

-- The dynamic type of a node, with the field that the type adds. `sequence_node` holds Nodes, Mode and
-- StopOnError.
mutual
  pub data TaskNode : Type 0 where
    node : BaseTaskNode → Concrete → TaskNodes → TaskNode

  pub data Concrete : Type 0 where
    base_node : Concrete
    io_node : IoCommand → Concrete
    motor_node : MotorCommand → Concrete
    delay_node : DelayCommand → Concrete
    sequence_node : TaskNodes → String → Bool → Concrete
    condition_node : ConditionCommand → Concrete

  pub data TaskNodes : Type 0 where
    no_nodes : TaskNodes
    next_node : TaskNode → TaskNodes → TaskNodes

pub data NodeError : Type 0 where
  child_not_found : String → NodeError
  empty_id empty_type not_implemented context_done : NodeError
  unsupported_io unsupported_motor unsupported_mode condition_timeout : String → NodeError
  failed_at : String → NodeError → NodeError
  parallel_failed : NodeError → NodeError

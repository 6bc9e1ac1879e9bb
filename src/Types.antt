-- ===== src/Types.antt =====
-- pkg/types/types.go: the types that the components share. A time is a number of nanoseconds since
-- some start, and a duration a number of nanoseconds that is not negative. A `float64` is its bit
-- pattern: arithmetic and comparison of floats are parameters of the code that uses them. Of
-- `Task` the fields `RootNode` and `Parameters` are left out; a device address `Data` is bytes.
use go_control.Prelude.{ℕ, String, Option, List, Bool}
use go_control.GoMap.{GoMap}

pub data TaskPriority : Type 0 where
  emergency high medium low : TaskPriority
  -- an `int` that is none of the constants
  other : ℕ → TaskPriority

pub data TaskStatus : Type 0 where
  pending running paused completed failed cancelled : TaskStatus

-- `CommandType` is a string in the source too.
abbrev pub command_move_to : String
command_move_to = "move_to"

abbrev pub command_move_relative : String
command_move_relative = "move_relative"

abbrev pub command_home : String
command_home = "home"

abbrev pub command_stop : String
command_stop = "stop"

abbrev pub command_jog : String
command_jog = "jog"

pub record Float64 : Type 0 where
  pub bits : ℕ

pub record Point : Type 0 where
  pub x : Float64
  pub y : Float64
  pub z : Float64

pub record Velocity : Type 0 where
  pub linear : Float64
  pub angular : Float64

-- `cancel_func` names the context that the function cancels; `none` is nil.
pub record Task : Type 0 where
  pub id : String
  pub kind : String
  pub priority : TaskPriority
  pub status : TaskStatus
  pub target : Point
  pub velocity : Velocity
  pub axes : List String
  pub created_at : ℕ
  pub started_at : Option ℕ
  pub completed_at : Option ℕ
  pub error : String
  pub timeout : ℕ
  pub cancel_func : Option ℕ

pub record MotionCommand : Type 0 where
  pub id : String
  pub device_id : String
  pub command_type : String
  pub position : Point
  pub velocity : Velocity
  pub acceleration : Velocity
  pub bytes : List ℕ
  pub timestamp : ℕ
  pub timeout : ℕ

pub record AxisConfig : Type 0 where
  pub device_id : String
  pub max_velocity : Float64
  pub max_acceleration : Float64
  pub min_position : Float64
  pub max_position : Float64
  pub home_position : Float64
  pub units : String
  pub invert_direction : Bool

pub record DeviceConfig : Type 0 where
  pub kind : String
  pub protocol : String
  pub endpoint : String
  pub parameters : GoMap String
  pub timeout : ℕ
  pub retry_count : ℕ

pub record SafetyConfig : Type 0 where
  pub enable_limits : Bool
  pub enable_emergency : Bool
  pub max_temperature : Float64
  pub min_voltage : Float64
  pub watchdog_timeout : ℕ

-- The fields of `SystemConfig` that the modelled components read.
pub record SystemConfig : Type 0 where
  pub queue_size : ℕ
  pub devices : GoMap DeviceConfig
  pub axes : GoMap AxisConfig
  pub safety : SafetyConfig

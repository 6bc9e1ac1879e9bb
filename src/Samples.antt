-- ===== src/Samples.antt =====
-- Concrete tasks, commands and axes of pkg/types/types.go and internal/core/queue.go, for tests.
use go_control.Prelude.{String, true, false, none, [], ◌∷◌}
use go_control.GoMap
use go_control.Types.{
  Task, TaskPriority, Float64, Point, Velocity, MotionCommand, AxisConfig, SystemConfig,
  SafetyConfig, pending, command_home,
}
use go_control.Queue.{QueuedCommand}
use go_control.Queue

abbrev pub zero_float : Float64
zero_float = record { bits = 0 }

abbrev pub origin : Point
origin = record { x = zero_float; y = zero_float; z = zero_float }

abbrev pub at_rest : Velocity
at_rest = record { linear = zero_float; angular = zero_float }

abbrev pub a_task : String → TaskPriority → Task
a_task id priority = record {
  id = id;
  kind = command_home;
  priority = priority;
  status = pending;
  target = origin;
  velocity = at_rest;
  axes = "axis-x" ∷ [];
  created_at = 0;
  started_at = none;
  completed_at = none;
  error = "";
  timeout = 1000;
  cancel_func = none;
}

abbrev pub home : MotionCommand
home = record {
  id = "task-7-cmd-0";
  device_id = "x";
  command_type = command_home;
  position = origin;
  velocity = at_rest;
  acceleration = at_rest;
  bytes = [];
  timestamp = 0;
  timeout = 1000;
}

abbrev pub no_object : QueuedCommand
no_object = record {
  command = home;
  status = Queue.pending;
  added_at = 0;
  sent_at = none;
  started_at = none;
  completed_at = none;
  error = "";
  task_id = "";
  cancel_func = none;
}

abbrev pub axis_x : AxisConfig
axis_x = record {
  device_id = "x";
  max_velocity = zero_float;
  max_acceleration = zero_float;
  min_position = zero_float;
  max_position = zero_float;
  home_position = zero_float;
  units = "mm";
  invert_direction = false;
}

abbrev pub safety : SafetyConfig
safety = record {
  enable_limits = true;
  enable_emergency = true;
  max_temperature = zero_float;
  min_voltage = zero_float;
  watchdog_timeout = 1000;
}

abbrev pub one_axis : SystemConfig
one_axis = record {
  queue_size = 100;
  devices = GoMap.empty;
  axes = GoMap.put GoMap.empty "axis-x" axis_x;
  safety = safety;
}

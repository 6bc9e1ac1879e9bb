-- ===== src/Config/Defaults.antt =====
-- internal/config/manager.go: the zero value of a configuration, and the one of CreateDefaultConfig.
-- A float is written by its bits.
use go_control.Prelude.{ℕ, String, true, false, ◌*◌, none, some, [], ◌∷◌}
use go_control.GoMap
use go_control.GoMap.{GoMap}
use go_control.Types.{DeviceConfig, AxisConfig, high, medium, command_home}
use go_control.Nodes.{
  pos, Table, no_entries, entry, text, texts, number, duration, boolean, command_sequence,
  command_io, command_motor_control, command_delay,
}
use go_control.Decomposer.{zero_float}
use go_control.NodeDecomposer.{one_second}
use go_control.Config.Records.{
  TaskNodeConfig, node_config, no_configs, next_config, TaskTemplate, SystemConfig,
}

unfoldable pub empty_config : SystemConfig
empty_config = record {
  event_loop_interval = pos 0;
  queue_size = pos 0;
  devices = GoMap.empty;
  axes = GoMap.empty;
  safety = record {
    enable_limits = false;
    enable_emergency = false;
    max_temperature = zero_float;
    min_voltage = zero_float;
    watchdog_timeout = 0;
  };
  ipc = record { kind = ""; address = ""; port = pos 0; timeout = pos 0; buffer_size = pos 0 };
  task_templates = none;
  command_mappings = none;
}

abbrev leaf : String → String → Table → TaskNodeConfig
leaf id kind parameters = node_config id kind parameters no_configs

abbrev sequential : Table
sequential = entry "mode" (text "sequential") (entry "stop_on_error" (boolean true) no_entries)

abbrev home_node : String → String → TaskNodeConfig
home_node id axis = leaf id command_home (entry "axes" (texts (axis ∷ [])) no_entries)

abbrev sensor_node : String → String → TaskNodeConfig
sensor_node id channel = leaf id command_io (
    entry "device_id" (text "device-1")
      (entry "channel" (text channel) (entry "action" (text "read") no_entries)))

abbrev motor_node : String → String → ℕ → TaskNodeConfig
motor_node id motor speed = leaf id command_motor_control (
    entry "device_id" (text "device-1") (
      entry "motor_id" (text motor) (
        entry "action" (text "start")
          (entry "speed" (number (record { bits = speed })) no_entries))))

unfoldable pub home_all : TaskTemplate
home_all = record {
  name = "Home All Axes";
  description = "Home all axes to their home positions";
  kind = command_sequence;
  parameters = sequential;
  nodes = next_config (home_node "home-x" "axis-x") (
      next_config (home_node "home-y" "axis-y")
        (next_config (home_node "home-z" "axis-z") no_configs));
  timeout = 30 * one_second;
  priority = high;
}

unfoldable pub io_check : TaskTemplate
io_check = record {
  name = "IO Status Check";
  description = "Check IO status before operation";
  kind = command_sequence;
  parameters = sequential;
  nodes =
      next_config (sensor_node "check-sensor-1" "sensor-1")
        (next_config (sensor_node "check-sensor-2" "sensor-2") no_configs);
  timeout = 5 * one_second;
  priority = medium;
}

unfoldable pub motor_start_sequence : TaskTemplate
motor_start_sequence = record {
  name = "Motor Start Sequence";
  description = "Start motors with delay between each";
  kind = command_sequence;
  parameters = sequential;
  nodes = next_config (motor_node "start-motor-1" "motor-1" 0x4059000000000000) (
      next_config
        (leaf "delay-1" command_delay
          (entry "duration" (duration (2 * one_second)) (entry "unit" (text "s") no_entries)))
        (next_config (motor_node "start-motor-2" "motor-2" 0x4062c00000000000) no_configs));
  timeout = 10 * one_second;
  priority = medium;
}

unfoldable pub default_device : DeviceConfig
default_device = record {
  kind = "controller";
  protocol = "mock";
  endpoint = "mock://device-1";
  parameters = GoMap.empty;
  timeout = 10 * one_second;
  retry_count = 0;
}

-- Bits of the maximal velocity, the maximal acceleration, and the two positions.
unfoldable pub default_axis : ℕ → ℕ → ℕ → ℕ → AxisConfig
default_axis velocity acceleration lowest highest = record {
  device_id = "device-1";
  max_velocity = record { bits = velocity };
  max_acceleration = record { bits = acceleration };
  min_position = record { bits = lowest };
  max_position = record { bits = highest };
  home_position = zero_float;
  units = "mm";
  invert_direction = false;
}

abbrev pub wide_axis : AxisConfig
wide_axis = default_axis 0x4059000000000000 0x4049000000000000 0xc08f400000000000 0x408f400000000000

abbrev pub narrow_axis : AxisConfig
narrow_axis =
    default_axis 0x4049000000000000 0x4039000000000000 0xc07f400000000000 0x407f400000000000

unfoldable pub default_config : SystemConfig
unfolding home_all io_check motor_start_sequence default_device default_axis
default_config = record {
  event_loop_interval = pos 10000000;
  queue_size = pos 1000;
  ipc = record {
    kind = "tcp";
    address = "127.0.0.1";
    port = pos 8080;
    timeout = pos 5000000000;
    buffer_size = pos 1024;
  };
  task_templates = some (
      GoMap.put (GoMap.put (GoMap.put GoMap.empty "home_all" home_all) "io_check" io_check)
        "motor_start_sequence" motor_start_sequence);
  command_mappings = some GoMap.empty;
  devices = GoMap.put GoMap.empty "device-1" default_device;
  axes =
      GoMap.put (GoMap.put (GoMap.put GoMap.empty "axis-x" wide_axis) "axis-y" wide_axis) "axis-z"
        narrow_axis;
  safety = record {
    enable_limits = true;
    enable_emergency = true;
    max_temperature = record { bits = 0x4054000000000000 };
    min_voltage = record { bits = 0x4028000000000000 };
    watchdog_timeout = 10 * one_second;
  };
}

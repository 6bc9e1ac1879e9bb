-- ===== src/Config/Records.antt =====
-- pkg/types/types.go: the configuration of the system as the configuration manager keeps it. An `int`
-- of a file may be negative; what `Types.SystemConfig` says of the other components is part of it.
use go_control.Prelude.{ℕ, String, Option}
use go_control.GoMap.{GoMap}
use go_control.Types.{TaskPriority, DeviceConfig, AxisConfig, SafetyConfig}
use go_control.Nodes.{ℤ, Table}

-- TaskNodeConfig and its children: id, type, parameters, children.
mutual
  pub data TaskNodeConfig : Type 0 where
    node_config : String → String → Table → TaskNodeConfigs → TaskNodeConfig

  pub data TaskNodeConfigs : Type 0 where
    no_configs : TaskNodeConfigs
    next_config : TaskNodeConfig → TaskNodeConfigs → TaskNodeConfigs

pub record TaskTemplate : Type 0 where
  pub name : String
  pub description : String
  pub kind : String
  pub parameters : Table
  pub nodes : TaskNodeConfigs
  pub timeout : ℕ
  pub priority : TaskPriority

pub record CommandMapping : Type 0 where
  pub command_name : String
  pub description : String
  pub template : String
  pub nodes : TaskNodeConfigs
  pub parameters : Table
  pub priority : TaskPriority
  pub timeout : ℕ

pub record IpcConfig : Type 0 where
  pub kind : String
  pub address : String
  pub port : ℤ
  pub timeout : ℤ
  pub buffer_size : ℤ

-- `none` is a nil map.
pub record SystemConfig : Type 0 where
  pub event_loop_interval : ℤ
  pub queue_size : ℤ
  pub devices : GoMap DeviceConfig
  pub axes : GoMap AxisConfig
  pub safety : SafetyConfig
  pub ipc : IpcConfig
  pub task_templates : Option (GoMap TaskTemplate)
  pub command_mappings : Option (GoMap CommandMapping)

-- ===== src/Config/Checking.antt =====
-- internal/config/manager.go: validateConfig, and the environment of the configuration manager: `marshal`
-- and `unmarshal` are those of yaml.v3, `le` is `<=` of floats, and the orders are those in which `range`
-- visits a map.
use go_control.Prelude.{
  ℕ, zero, suc, String, Bool, true, false, Option, none, some, List, [], ◌∷◌, ◌⊎◌, ◌==◌, str_eq,
  if◌then◌else◌,
}
use go_control.GoMap
use go_control.GoMap.{GoMap}
use go_control.Types.{Float64, DeviceConfig, AxisConfig}
use go_control.Nodes.{ℤ, pos, negsuc}
use go_control.Decomposer.{zero_float}
use go_control.Config.Records.{SystemConfig}

pub data ConfigError : Type 0 where
  no_devices already_running not_running : ConfigError
  device_without_type device_without_protocol device_without_endpoint : String → ConfigError
  axis_without_device axis_velocity axis_acceleration axis_range : String → ConfigError
  device_not_found axis_not_found template_not_found template_exists : String → ConfigError
  unreadable : ConfigError
  unparsable marshal_failed unwritable : String → ConfigError
  validation_failed import_failed import_unsaved : ConfigError → ConfigError

abbrev pub is_positive : ℤ → Bool
is_positive (pos zero) = false
is_positive (pos (suc n)) = true
is_positive (negsuc n) = false

-- `if x <= 0 { x = d }`
abbrev pub or_default : ℤ → ℤ → ℤ
or_default x d = if is_positive x then x else d

abbrev pub or_empty {ℓ} : {V : Type ℓ} → Option (GoMap V) → Option (GoMap V)
or_empty none = some GoMap.empty
or_empty (some m) = some m

-- The part of validateConfig that fills in what is missing.
unfoldable pub defaulted : SystemConfig → SystemConfig
defaulted c = record c {
  event_loop_interval = or_default c.event_loop_interval (pos 10000000);
  queue_size = or_default c.queue_size (pos 1000);
  ipc = record c.ipc {
    buffer_size = or_default c.ipc.buffer_size (pos 1024);
    timeout = or_default c.ipc.timeout (pos 5000000000);
  };
  task_templates = or_empty c.task_templates;
  command_mappings = or_empty c.command_mappings;
}

unfoldable pub check_device : String → DeviceConfig → Option ConfigError
check_device id d =
    if str_eq d.kind ""
    then some (device_without_type id)
    else if str_eq d.protocol ""
    then some (device_without_protocol id)
    else if str_eq d.endpoint ""
    then some (device_without_endpoint id)
    else none

-- The first error ends a loop.
abbrev pub or_else : Option ConfigError → Option ConfigError → Option ConfigError
or_else (some e) later = some e
or_else none later = later

abbrev pub error_of {ℓ} :
    {V : Type ℓ} → (String → V → Option ConfigError) → String → Option V → Option ConfigError
error_of check k none = none
error_of check k (some v) = check k v

-- The loop over a map, in the order of the keys.
unfoldable pub check_each {ℓ} :
    {V : Type ℓ} → (String → V → Option ConfigError) → GoMap V → List String → Option ConfigError
check_each check m [] = none
check_each check m (k ∷ ks) = or_else (error_of check k (GoMap.get m k)) (check_each check m ks)

unfoldable pub check_axis : (Float64 → Float64 → Bool) → String → AxisConfig → Option ConfigError
check_axis le id a =
    if str_eq a.device_id ""
    then some (axis_without_device id)
    else if le a.max_velocity zero_float
    then some (axis_velocity id)
    else if le a.max_acceleration zero_float
    then some (axis_acceleration id)
    else if le a.max_position a.min_position
    then some (axis_range id)
    else none

-- What the manager uses and does not implement.
pub record Environment : Type 0 where
  pub le : Float64 → Float64 → Bool
  pub device_order : GoMap DeviceConfig → List String
  pub axis_order : GoMap AxisConfig → List String
  pub marshal : SystemConfig → String ⊎ List ℕ
  pub unmarshal : List ℕ → String ⊎ SystemConfig

module _ (env : Environment) where
  open env use {le, device_order, axis_order}

  unfoldable pub check_config : SystemConfig → Option ConfigError
  check_config c =
      if GoMap.size c.devices == 0
      then some no_devices
      else or_else (check_each check_device c.devices (device_order c.devices))
          (check_each (check_axis le) c.axes (axis_order c.axes))

  -- The configuration behind the pointer afterwards, and the error.
  unfoldable pub validate_config : SystemConfig → SystemConfig × Option ConfigError
  validate_config c = (defaulted c, check_config (defaulted c))

-- ===== src/Device/Kinds.antt =====
-- internal/device/device.go: what the devices share: status, errors, and BaseDevice.
use go_control.Prelude.{ℕ, String, Bool, false, Option, none}
use go_control.Types.{Float64, Point, Velocity, DeviceConfig}
use go_control.Decomposer.{zero_float, zero_point, straight}

-- types.DeviceStatus.
pub record DeviceStatus : Type 0 where
  pub id : String
  pub connected : Bool
  pub error : Option String
  pub last_seen : ℕ
  pub position : Point
  pub velocity : Velocity
  pub temperature : Float64
  pub voltage : Float64

pub data DeviceError : Type 0 where
  not_connected unknown_register unsupported_command unsupported_protocol : String → DeviceError
  not_initialized : DeviceError
  -- what was to be written or read, and the error of the hardware
  failed_to_write failed_to_read : String → String → DeviceError
  insufficient : String → DeviceError

-- What Read returns, by its dynamic type.
pub data Reading : Type 0 where
  point : Point → Reading
  speed : Velocity → Reading
  flag : Bool → Reading
  word : ℕ → Reading

pub record BaseDevice : Type 0 where
  pub id : String
  pub device_type : String
  pub status : DeviceStatus
  pub config : DeviceConfig
  pub connected : Bool

unfoldable pub new_base_device : String → String → DeviceConfig → BaseDevice
new_base_device id device_type config = record {
  id = id;
  device_type = device_type;
  config = config;
  status = record {
    id = id;
    connected = false;
    error = none;
    last_seen = 0;
    position = zero_point;
    velocity = straight zero_float;
    temperature = zero_float;
    voltage = zero_float;
  };
  connected = false;
}

unfoldable pub set_status : DeviceStatus → BaseDevice → BaseDevice
set_status s d = record d { status = s }

unfoldable pub set_connected : Bool → ℕ → BaseDevice → BaseDevice
set_connected connected now d = record d {
  connected = connected;
  status = record d.status { connected = connected; last_seen = now };
}

-- updateStatus, which ModbusDevice and HardwareDevice both have.
unfoldable pub update_status : Point → Velocity → ℕ → BaseDevice → BaseDevice
update_status position velocity now d =
    set_status (record d.status { position = position; velocity = velocity; last_seen = now }) d

-- ===== src/Device/Mock.antt =====
-- internal/device/device.go: MockDevice.
use go_control.Prelude.{
  ℕ, String, true, false, not, Option, none, some, ◌⊎◌, inl, inr, str_eq, if◌then◌else◌,
}
use go_control.Types.{Point, Velocity, DeviceConfig, MotionCommand}
use go_control.Decomposer.{zero_float, zero_point, straight}
use go_control.Device.Kinds.{
  DeviceError, not_connected, unknown_register, Reading, point, speed, flag, BaseDevice,
  new_base_device, set_connected, set_status,
}

pub record MockDevice : Type 0 where
  pub base : BaseDevice
  pub position : Point
  pub velocity : Velocity

unfoldable pub new_mock_device : String → DeviceConfig → MockDevice
new_mock_device id config = record {
  base = new_base_device id "mock" config;
  position = zero_point;
  velocity = straight zero_float;
}

unfoldable pub connect : ℕ → MockDevice → MockDevice
connect now d = record d { base = set_connected true now d.base }

unfoldable pub disconnect : ℕ → MockDevice → MockDevice
disconnect now d = record d { base = set_connected false now d.base }

unfoldable pub write : MotionCommand → ℕ → MockDevice → MockDevice × Option DeviceError
write cmd now d = if not d.base.connected then (d, some (not_connected d.base.id)) else (
  record {
    position = cmd.position;
    velocity = cmd.velocity;
    base =
        set_status
          (record {
            id = d.base.id;
            connected = true;
            error = none;
            last_seen = now;
            position = cmd.position;
            velocity = cmd.velocity;
            temperature = zero_float;
            voltage = zero_float;
          })
          d.base;
  },
  none,
)

unfoldable pub read : String → MockDevice → DeviceError ⊎ Reading
read reg d =
    if not d.base.connected
    then inl (not_connected d.base.id)
    else if str_eq reg "position"
    then inr (point d.position)
    else if str_eq reg "velocity"
    then inr (speed d.velocity)
    else if str_eq reg "connected"
    then inr (flag d.base.connected)
    else inl (unknown_register reg)

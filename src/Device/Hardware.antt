-- ===== src/Device/Hardware.antt =====
-- internal/device/device.go: HardwareDevice, which passes its calls on to the hardware's own device
-- manager. `to_byte` is `byte(x * 1000)`, `over_1000` divides the number of a byte by 1000.
use go_control.Prelude.{
  ℕ, String, true, false, not, Option, none, some, List, [], ◌∷◌, ◌⊎◌, inl, inr, str_eq,
  if◌then◌else◌,
}
use go_control.Types.{
  Float64, Point, Velocity, DeviceConfig, MotionCommand, command_move_to, command_stop,
  command_home,
}
use go_control.DeviceManager.{CommunicationInterface, DeviceManager, write_device, read_device}
use go_control.Device.Kinds.{
  DeviceError, not_connected, unknown_register, unsupported_command, failed_to_write,
  failed_to_read, insufficient, Reading, point, speed, word, BaseDevice, new_base_device,
  set_connected, update_status,
}

-- The factory that all devices share stands beside the device.
pub record HardwareDevice : Type 0 where
  pub base : BaseDevice
  pub hw_device_id : String

unfoldable pub new_hardware_device : String → DeviceConfig → HardwareDevice
new_hardware_device id config = record {
  base = new_base_device id "hardware" config;
  hw_device_id = id;
}

unfoldable pub connect : ℕ → HardwareDevice → HardwareDevice
connect now d = record d { base = set_connected true now d.base }

unfoldable pub disconnect : ℕ → HardwareDevice → HardwareDevice
disconnect now d = record d { base = set_connected false now d.base }

abbrev pub written_as : String → Option String → Option DeviceError
written_as what none = none
written_as what (some e) = some (failed_to_write what e)

module _ {C : Type 0} (ops : CommunicationInterface C) where
  abbrev pub Written : Type 0
  Written = HardwareDevice × DeviceManager C × Option DeviceError

  -- One call of WriteDevice.
  abbrev pub send :
      String
      → String
      → List ℕ
      → HardwareDevice
      → DeviceManager C
      → DeviceManager C × Option DeviceError
  send what address bytes d dm =
      let r = write_device ops d.hw_device_id address bytes dm in (r.0, written_as what r.1)

  abbrev pub sent : HardwareDevice → DeviceManager C × Option DeviceError → Written
  sent d (dm, e) = (d, dm, e)

  module _ (to_byte : Float64 → ℕ) where
    -- After the velocity has been written.
    abbrev pub moved :
        Point → Velocity → ℕ → HardwareDevice → DeviceManager C × Option DeviceError → Written
    moved pos vel now d (dm, some e) = (d, dm, some e)
    moved pos vel now d (dm, none) =
        (record d { base = update_status pos vel now d.base }, dm, none)

    -- After the position has been written.
    abbrev pub write_velocity :
        Point → Velocity → ℕ → HardwareDevice → DeviceManager C × Option DeviceError → Written
    write_velocity pos vel now d (dm, some e) = (d, dm, some e)
    write_velocity pos vel now d (dm, none) =
        moved pos vel now d
          (send "velocity" "velocity" (to_byte vel.linear ∷ to_byte vel.angular ∷ []) d dm)

    unfoldable pub write_position_to_hardware :
        Point → Velocity → ℕ → HardwareDevice → DeviceManager C → Written
    write_position_to_hardware pos vel now d dm =
        write_velocity pos vel now d
          (send "position" "position" (to_byte pos.x ∷ to_byte pos.y ∷ to_byte pos.z ∷ []) d dm)

    unfoldable pub write : MotionCommand → ℕ → HardwareDevice → DeviceManager C → Written
    write cmd now d dm =
        if not d.base.connected
        then (d, dm, some (not_connected d.base.id))
        else if str_eq cmd.command_type command_move_to
        then write_position_to_hardware cmd.position cmd.velocity now d dm
        else if str_eq cmd.command_type command_stop
        then sent d (send "stop command" "stop" (0 ∷ []) d dm)
        else if str_eq cmd.command_type command_home
        then sent d (send "home command" "home" (1 ∷ []) d dm)
        else (d, dm, some (unsupported_command cmd.command_type))

  module _ (over_1000 : ℕ → Float64) where
    abbrev pub position_of : String ⊎ List ℕ → DeviceError ⊎ Reading
    position_of (inl e) = inl (failed_to_read "position" e)
    position_of (inr (x ∷ y ∷ z ∷ _)) =
        inr (point (record { x = over_1000 x; y = over_1000 y; z = over_1000 z }))
    position_of (inr _) = inl (insufficient "position")

    abbrev pub velocity_of : String ⊎ List ℕ → DeviceError ⊎ Reading
    velocity_of (inl e) = inl (failed_to_read "velocity" e)
    velocity_of (inr (l ∷ a ∷ _)) =
        inr (speed (record { linear = over_1000 l; angular = over_1000 a }))
    velocity_of (inr _) = inl (insufficient "velocity")

    abbrev pub status_of : String ⊎ List ℕ → DeviceError ⊎ Reading
    status_of (inl e) = inl (failed_to_read "status" e)
    status_of (inr (w ∷ _)) = inr (word w)
    status_of (inr []) = inl (insufficient "status")

    unfoldable pub read : String → HardwareDevice → DeviceManager C → DeviceError ⊎ Reading
    read reg d dm =
        if not d.base.connected
        then inl (not_connected d.base.id)
        else if str_eq reg "position"
        then position_of (read_device ops d.hw_device_id "position" 3 dm)
        else if str_eq reg "velocity"
        then velocity_of (read_device ops d.hw_device_id "velocity" 2 dm)
        else if str_eq reg "status"
        then status_of (read_device ops d.hw_device_id "status" 1 dm)
        else inl (unknown_register reg)

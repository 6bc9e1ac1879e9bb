-- ===== src/Device/Status.antt =====
-- internal/device/device.go: the status that a device reports, whatever is called on it.
use go_control.Prelude.{
  ℕ, ◌≡◌, refl, Bool, true, false, not, Option, none, some, [], ◌∷◌, arith, str_eq, if◌then◌else◌,
  if_cases, if_holds,
}
use go_control.Types.{Float64, MotionCommand, command_move_to, command_stop, command_home}
use go_control.DeviceManager
use go_control.DeviceManager.{CommunicationInterface}
use go_control.Device.{Device, mock, modbus, hardware}
use go_control.Device.Kinds.{BaseDevice, DeviceError, set_status, update_status}
use go_control.Device.Mock
use go_control.Device.Mock.{MockDevice}
use go_control.Device.Modbus
use go_control.Device.Modbus.{ModbusDevice, finished, is_down}
use go_control.Device.Hardware
use go_control.Device.Hardware.{
  HardwareDevice, write_position_to_hardware, send, sent, moved, write_velocity,
}

abbrev pub base_of : Device → BaseDevice
base_of (mock d) = d.base
base_of (modbus d) = d.base
base_of (hardware d) = d.base

module _ {C : Type 0} (ops : CommunicationInterface C) (scaled to_byte : Float64 → ℕ) where
  abbrev pub Written : Type 0
  Written = Device × DeviceManager.DeviceManager C × Option DeviceError

  abbrev as_mock : DeviceManager.DeviceManager C → MockDevice × Option DeviceError → Written
  as_mock dm (d, e) = (mock d, dm, e)

  abbrev as_modbus : DeviceManager.DeviceManager C → ModbusDevice × Option DeviceError → Written
  as_modbus dm (d, e) = (modbus d, dm, e)

  abbrev as_hardware : HardwareDevice × DeviceManager.DeviceManager C × Option DeviceError → Written
  as_hardware (d, dm, e) = (hardware d, dm, e)

  -- Write of core.Device, by the dynamic type.
  unfoldable pub write : MotionCommand → ℕ → Device → DeviceManager.DeviceManager C → Written
  write cmd now (mock d) dm = as_mock dm (Mock.write cmd now d)
  write cmd now (modbus d) dm = as_modbus dm (Modbus.write scaled cmd now d)
  write cmd now (hardware d) dm = as_hardware (Hardware.write ops to_byte cmd now d dm)

  -- Home and Stop of a hardware device do not touch its status.
  abbrev pub reports : MotionCommand → Device → Bool
  reports cmd (hardware d) = str_eq cmd.command_type command_move_to
  reports cmd _ = true

  abbrev pub Reported : MotionCommand → Device → Device → Option DeviceError → Type 0
  Reported cmd before after (some e) = after ≡ before
  Reported cmd before after none =
      ((base_of before).connected ≡ true)
      × ((base_of after).connected ≡ true)
      × (if reports cmd before
          then ((base_of after).status.position ≡ cmd.position)
            × ((base_of after).status.velocity ≡ cmd.velocity)
          else after ≡ before)

  finished-Reported :
      (cmd : MotionCommand) (now : ℕ) (d : ModbusDevice) (r : Option DeviceError)
      → d.base.connected ≡ true
      → Reported cmd (modbus d) (modbus (finished cmd now d r).0) (finished cmd now d r).1
  unfolding update_status set_status
  finished-Reported cmd now d (some e) h = refl
  finished-Reported cmd now d none h = (h, h, (refl, refl))

  mock-Reported :
      (cmd : MotionCommand) (now : ℕ) (d : MockDevice)
      → Reported cmd (mock d) (mock (Mock.write cmd now d).0) (Mock.write cmd now d).1
  unfolding Mock.write set_status
  mock-Reported cmd now d =
      if_cases (λ (r : MockDevice × Option DeviceError). Reported cmd (mock d) (mock r.0) r.1)
        (not d.base.connected) (λ h. refl)
        (λ h. let up : d.base.connected ≡ true = ground arith in (up, up, (refl, refl)))

  modbus-Reported :
      (cmd : MotionCommand) (now : ℕ) (d : ModbusDevice)
      → Reported cmd
          (modbus d)
          (modbus (Modbus.write scaled cmd now d).0)
          (Modbus.write scaled cmd now d).1
  unfolding Modbus.write
  modbus-Reported cmd now d =
      let P = λ (r : ModbusDevice × Option DeviceError). Reported cmd (modbus d) (modbus r.0) r.1 in
      if_cases P (is_down d) (λ h. refl)
        (λ h.
          let up : d.base.connected ≡ true = ground arith in
          if_holds P (str_eq cmd.command_type command_move_to) (finished-Reported cmd now d _ up) (
            if_holds P (str_eq cmd.command_type command_stop) (finished-Reported cmd now d _ up) (
              if_holds P (str_eq cmd.command_type command_home) (finished-Reported cmd now d _ up)
                refl)))

  moved-Reported :
      (cmd : MotionCommand) (now : ℕ) (d : HardwareDevice)
      (r : DeviceManager.DeviceManager C × Option DeviceError)
      → d.base.connected ≡ true
      → str_eq cmd.command_type command_move_to ≡ true
      → Reported cmd
          (hardware d)
          (hardware (moved ops to_byte cmd.position cmd.velocity now d r).0)
          (moved ops to_byte cmd.position cmd.velocity now d r).2
  unfolding update_status set_status
  moved-Reported cmd now d (dm, some e) up move = refl
  moved-Reported cmd now d (dm, none) up move = (up, up, rw move (refl, refl))

  position-Reported :
      (cmd : MotionCommand) (now : ℕ) (d : HardwareDevice)
      (r : DeviceManager.DeviceManager C × Option DeviceError)
      → d.base.connected ≡ true
      → str_eq cmd.command_type command_move_to ≡ true
      → Reported cmd
          (hardware d)
          (hardware (write_velocity ops to_byte cmd.position cmd.velocity now d r).0)
          (write_velocity ops to_byte cmd.position cmd.velocity now d r).2
  position-Reported cmd now d (dm, some e) up move = refl
  position-Reported cmd now d (dm, none) up move =
      moved-Reported cmd now d (send ops "velocity" "velocity" _ d dm) up move

  sent-Reported :
      (cmd : MotionCommand) (d : HardwareDevice)
      (r : DeviceManager.DeviceManager C × Option DeviceError)
      → d.base.connected ≡ true
      → str_eq cmd.command_type command_move_to ≡ false
      → Reported cmd (hardware d) (hardware (sent ops d r).0) (sent ops d r).2
  sent-Reported cmd d (dm, some e) up other = refl
  sent-Reported cmd d (dm, none) up other = (up, up, rw other refl)

  hardware-Reported :
      (cmd : MotionCommand) (now : ℕ) (d : HardwareDevice) (dm : DeviceManager.DeviceManager C)
      → Reported cmd
          (hardware d)
          (hardware (Hardware.write ops to_byte cmd now d dm).0)
          (Hardware.write ops to_byte cmd now d dm).2
  unfolding Hardware.write write_position_to_hardware
  hardware-Reported cmd now d dm =
      let P = λ (r : Hardware.Written ops). Reported cmd (hardware d) (hardware r.0) r.2 in
      if_cases P (not d.base.connected) (λ h. refl)
        (λ h.
          let up : d.base.connected ≡ true = ground arith in
          if_cases P (str_eq cmd.command_type command_move_to)
            (position-Reported cmd now d (send ops "position" "position" _ d dm) up)
            (λ other.
              if_holds P (str_eq cmd.command_type command_stop)
                (sent-Reported cmd d (send ops "stop command" "stop" (0 ∷ []) d dm) up other)
                (if_holds P (str_eq cmd.command_type command_home)
                  (sent-Reported cmd d (send ops "home command" "home" (1 ∷ []) d dm) up other)
                  refl)))

  -- A Write that returns an error leaves the device as it was. One that succeeds is of a connected
  -- device, which stays connected, and after it a mock or Modbus device reports the position and the
  -- velocity of the command, whatever its type; a hardware device does so after a move to a position,
  -- and is as it was after any other command.
  pub write-Reported :
      (cmd : MotionCommand) (now : ℕ) (d : Device) (dm : DeviceManager.DeviceManager C)
      → Reported cmd d (write cmd now d dm).0 (write cmd now d dm).2
  unfolding write
  write-Reported cmd now (mock d) dm = mock-Reported cmd now d
  write-Reported cmd now (modbus d) dm = modbus-Reported cmd now d
  write-Reported cmd now (hardware d) dm = hardware-Reported cmd now d dm

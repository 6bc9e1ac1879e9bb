-- ===== src/Device/Modbus.antt =====
-- internal/device/device.go: ModbusDevice and its ModbusClient, a simulation that stores nothing and
-- only logs what is written. `over_1000` divides the number of a register by 1000.
use go_control.Prelude.{
  ℕ, zero, suc, ◌+◌, ◌*◌, ◌%◌, ◌^◌, String, Bool, true, false, not, ◌||◌, Option, none, some, List,
  [], ◌∷◌, ◌⊎◌, inl, inr, is_some, str_eq, if◌then◌else◌,
}
use go_control.Outcome.{Outcome, returns, panics}
use go_control.Types.{
  Float64, DeviceConfig, MotionCommand, command_move_to, command_stop, command_home,
}
use go_control.Device.Kinds.{
  DeviceError, not_connected, unknown_register, unsupported_command, not_initialized, Reading,
  point, speed, word, BaseDevice, new_base_device, set_connected, update_status,
}

pub record ModbusClient : Type 0 where
  pub endpoint : String
  pub timeout : ℕ

pub record ModbusDevice : Type 0 where
  pub base : BaseDevice
  pub client : Option ModbusClient
  pub endpoint : String

unfoldable pub new_modbus_device : String → DeviceConfig → ModbusDevice
new_modbus_device id config = record {
  base = new_base_device id "modbus" config;
  client = none;
  endpoint = config.endpoint;
}

-- NewModbusClient, which never fails.
unfoldable pub new_modbus_client : String → ℕ → ModbusClient
new_modbus_client endpoint timeout = record { endpoint = endpoint; timeout = timeout }

unfoldable pub connect : ℕ → ModbusDevice → ModbusDevice
connect now d = record d {
  client = some (new_modbus_client d.endpoint d.base.config.timeout);
  base = set_connected true now d.base;
}

unfoldable pub disconnect : ℕ → ModbusDevice → ModbusDevice
disconnect now d = record d { client = none; base = set_connected false now d.base }

-- `uint16(i * 100)` for each place from `i` on.
unfoldable pub registers : ℕ → ℕ → List ℕ
registers i zero = []
registers i (suc n) = i * 100 % 2 ^ 16 ∷ registers (i + 1) n

unfoldable pub read_holding_registers : ℕ → ℕ → ModbusClient → List ℕ
read_holding_registers address quantity client = registers 0 quantity

-- WriteHoldingRegisters and WriteSingleRegister.
unfoldable pub write_registers : ℕ → List ℕ → ModbusClient → Option DeviceError
write_registers address values client = none

abbrev pub with_client :
    (ModbusClient → Option DeviceError) → Option ModbusClient → Option DeviceError
with_client call none = some not_initialized
with_client call (some c) = call c

abbrev pub finished :
    MotionCommand → ℕ → ModbusDevice → Option DeviceError → ModbusDevice × Option DeviceError
finished cmd now d (some e) = (d, some e)
finished cmd now d none =
    (record d { base = update_status cmd.position cmd.velocity now d.base }, none)

abbrev pub is_down : ModbusDevice → Bool
is_down d = not d.base.connected || not (is_some d.client)

-- `scaled` is `uint16(x * 1000)`.
unfoldable pub write :
    (Float64 → ℕ) → MotionCommand → ℕ → ModbusDevice → ModbusDevice × Option DeviceError
write scaled cmd now d =
    if is_down d
    then (d, some (not_connected d.base.id))
    else if str_eq cmd.command_type command_move_to
    then finished cmd now d (
        with_client
          (write_registers 0
            (scaled cmd.position.x ∷ scaled cmd.position.y ∷ scaled cmd.position.z ∷ []))
          d.client)
    else if str_eq cmd.command_type command_stop
    then finished cmd now d (with_client (write_registers 100 (0 ∷ [])) d.client)
    else if str_eq cmd.command_type command_home
    then finished cmd now d (with_client (write_registers 101 (1 ∷ [])) d.client)
    else (d, some (unsupported_command cmd.command_type))

module _ (over_1000 : ℕ → Float64) where
  -- `values[i]` panics where there is no such value.
  abbrev pub position_of : List ℕ → Outcome (DeviceError ⊎ Reading)
  position_of (x ∷ y ∷ z ∷ _) =
      returns (inr (point (record { x = over_1000 x; y = over_1000 y; z = over_1000 z })))
  position_of _ = panics

  abbrev pub velocity_of : List ℕ → Outcome (DeviceError ⊎ Reading)
  velocity_of (l ∷ a ∷ _) =
      returns (inr (speed (record { linear = over_1000 l; angular = over_1000 a })))
  velocity_of _ = panics

  abbrev pub status_of : List ℕ → Outcome (DeviceError ⊎ Reading)
  status_of [] = returns (inl (DeviceError.insufficient "no status register value"))
  status_of (w ∷ _) = returns (inr (word w))

  abbrev pub read_with :
      (List ℕ → Outcome (DeviceError ⊎ Reading))
      → ℕ
      → ℕ
      → Option ModbusClient
      → Outcome (DeviceError ⊎ Reading)
  read_with f address quantity none = returns (inl not_initialized)
  read_with f address quantity (some c) = f (read_holding_registers address quantity c)

  unfoldable pub read : String → ModbusDevice → Outcome (DeviceError ⊎ Reading)
  read reg d =
      if is_down d
      then returns (inl (not_connected d.base.id))
      else if str_eq reg "position"
      then read_with position_of 0 3 d.client
      else if str_eq reg "velocity"
      then read_with velocity_of 10 2 d.client
      else if str_eq reg "status"
      then read_with status_of 20 1 d.client
      else returns (inl (unknown_register reg))

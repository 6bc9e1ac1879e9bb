-- ===== src/Device.antt =====
-- internal/device/device.go: the devices of the system by their dynamic type, and the device manager
-- over the factory of internal/hardware/factory.go. The order in which `range` visits the configured
-- devices is a list of their ids.
pub mod Kinds
pub mod Mock
pub mod Modbus
pub mod Hardware
pub mod Status
pub mod Starting
pub mod Stopping
mod Examples
use go_control.Prelude.{
  ℕ, String, Option, none, some, List, [], ◌∷◌, ◌⊎◌, inl, inr, str_eq, if◌then◌else◌,
}
use go_control.GoMap
use go_control.GoMap.{GoMap}
use go_control.Outcome.{Outcome, returns, and_then}
use go_control.Types.{DeviceConfig}
use go_control.DeviceManager
use go_control.DeviceManager.{CommunicationInterface, connect_device, new_device_manager}
use go_control.Factory
use go_control.Factory.{add_device_from_config}
use go_control.Factory.Protocols.{ProtocolConfig, Created, create_device_config}
use go_control.Device.Kinds.{DeviceError, unsupported_protocol}
use go_control.Device.Mock
use go_control.Device.Mock.{MockDevice}
use go_control.Device.Modbus
use go_control.Device.Modbus.{ModbusDevice}
use go_control.Device.Hardware
use go_control.Device.Hardware.{HardwareDevice}

-- core.Device.
pub data Device : Type 0 where
  mock : MockDevice → Device
  modbus : ModbusDevice → Device
  hardware : HardwareDevice → Device

abbrev pub connect : ℕ → Device → Device
connect now (mock d) = mock (Mock.connect now d)
connect now (modbus d) = modbus (Modbus.connect now d)
connect now (hardware d) = hardware (Hardware.connect now d)

abbrev pub disconnect : ℕ → Device → Device
disconnect now (mock d) = mock (Mock.disconnect now d)
disconnect now (modbus d) = modbus (Modbus.disconnect now d)
disconnect now (hardware d) = hardware (Hardware.disconnect now d)

-- `hardware_mgr` is the device manager inside the factory.
pub record Devices (C : Type 0) : Type 0 where
  pub devices : GoMap Device
  pub config : GoMap DeviceConfig
  pub hardware_mgr : DeviceManager.DeviceManager C

abbrev pub legacy_device : String → DeviceConfig → DeviceError ⊎ Device
legacy_device id config =
    if str_eq config.protocol "mock"
    then inr (mock (Mock.new_mock_device id config))
    else if str_eq config.protocol "modbus"
    then inr (modbus (Modbus.new_modbus_device id config))
    else inl (unsupported_protocol config.protocol)

abbrev pub wrapped : String → DeviceConfig → Created → DeviceError ⊎ Device
wrapped id config (inr c) = inr (hardware (Hardware.new_hardware_device id config))
wrapped id config (inl e) = legacy_device id config

unfoldable pub create_device : String → DeviceConfig → DeviceError ⊎ Device
create_device id config = wrapped id config (create_device_config id config)

module _ {C : Type 0} (ops : CommunicationInterface C)
    (new_client : ProtocolConfig → DeviceManager.DeviceConfig → C) where
  unfoldable pub new_devices : GoMap DeviceConfig → Devices C
  new_devices config = record {
    devices = GoMap.empty;
    config = config;
    hardware_mgr = new_device_manager ops;
  }

  -- The wrapper is connected if the hardware is.
  abbrev pub connected_as :
      String → Device → ℕ → Devices C → DeviceManager.DeviceManager C × Option String → Devices C
  connected_as id d now m (hw, some e) = record m {
    devices = GoMap.put m.devices id d;
    hardware_mgr = hw;
  }
  connected_as id d now m (hw, none) = record m {
    devices = GoMap.put m.devices id (connect now d);
    hardware_mgr = hw;
  }

  abbrev pub wrapped_as : String → ℕ → Devices C → DeviceError ⊎ Device → Devices C
  wrapped_as id now m (inl e) = m
  wrapped_as id now m (inr d) = connected_as id d now m (connect_device ops id m.hardware_mgr)

  abbrev pub added_as :
      String
      → DeviceConfig
      → ℕ
      → Devices C
      → DeviceManager.DeviceManager C × Option String
      → Devices C
  added_as id config now m (hw, some e) = record m { hardware_mgr = hw }
  added_as id config now m (hw, none) =
      wrapped_as id now (record m { hardware_mgr = hw }) (create_device id config)

  -- One round of the loop of Start; its errors are logged.
  abbrev pub start_device : String → ℕ → Devices C → Option DeviceConfig → Outcome (Devices C)
  start_device id now m none = returns m
  start_device id now m (some config) =
      and_then (add_device_from_config ops new_client id config now m.hardware_mgr)
        (λ r. returns (added_as id config now m r))

  unfoldable pub start_devices : List String → ℕ → Devices C → Outcome (Devices C)
  start_devices [] now m = returns m
  start_devices (id ∷ ids) now m =
      and_then (start_device id now m (GoMap.get m.config id)) (start_devices ids now)

  unfoldable pub start : List String → ℕ → Devices C → Outcome (Devices C)
  start order now m =
      and_then (Factory.start ops new_client m.hardware_mgr)
        (λ hw. start_devices order now (record m { hardware_mgr = hw }))

  -- The hardware is stopped first, then each device is disconnected.
  unfoldable pub stop : ℕ → Devices C → Outcome (Devices C)
  stop now m = and_then (Factory.stop ops new_client m.hardware_mgr) λ hw.
      returns
        (record m { hardware_mgr = hw; devices = GoMap.map_values (disconnect now) m.devices })

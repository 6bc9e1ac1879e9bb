-- ===== src/Device/Examples.antt =====
-- The theorems about internal/device/device.go at concrete devices, whose client always answers, and
-- tests.
use go_control.Prelude.{ℕ, ◌≡◌, refl, none, [], ◌∷◌, inr}
use go_control.GoMap
use go_control.GoMap.{GoMap}
use go_control.Outcome.{Holds, Returns, deadlocks}
use go_control.Types.{DeviceConfig, Float64}
use go_control.Comm.{ConnectionStatus, disconnected, connected}
use go_control.Config.Defaults.{default_config, default_device}
use go_control.DeviceManager
use go_control.DeviceManager.{CommunicationInterface}
use go_control.Factory
use go_control.Factory.Protocols.{
  ProtocolConfig, create_device_config, convert_device_type, convert_string_params_to_interface,
}
use go_control.Samples.{home}
use go_control.Device.{Device, mock, new_devices, start, start_devices, stop}
use go_control.Device.Kinds.{point, set_connected, set_status, new_base_device}
use go_control.Device.Mock
use go_control.Device.Starting.{AreBacked, start-AreBacked}
use go_control.Device.Stopping.{stop-start}

abbrev client : CommunicationInterface ConnectionStatus
client = record {
  get_status = λ c. c;
  connect = λ c. (connected, none);
  disconnect = λ c. (disconnected, none);
  reconnect = λ c. (connected, none);
  read = λ address n c. inr (1 ∷ 2 ∷ 3 ∷ []);
  write = λ address bytes c. (c, none);
  add_event_handler = λ h c. c;
  remove_event_handler = λ h c. c;
}

abbrev new_client : ProtocolConfig → DeviceManager.DeviceConfig → ConnectionStatus
new_client detail config = disconnected

abbrev gripper : DeviceConfig
gripper = record default_device { protocol = "serial" }

-- A device with a serial port, and the mock device of the default configuration.
abbrev configured : GoMap DeviceConfig
configured = GoMap.put (GoMap.put GoMap.empty "device-1" default_device) "gripper" gripper

start-AreBacked_example : Holds (AreBacked client new_client configured) (
    start client new_client
      ("device-1" ∷ "gripper" ∷ [])
      5
      (new_devices client new_client configured))
start-AreBacked_example =
    start-AreBacked client new_client configured ("device-1" ∷ "gripper" ∷ []) 5

stop-start_example :
    Returns
      (λ m. stop client new_client 9 m ≡ deadlocks)
      (start client new_client
        ("device-1" ∷ "gripper" ∷ [])
        5
        (new_devices client new_client configured))
stop-start_example = stop-start client new_client configured ("device-1" ∷ "gripper" ∷ []) 5 9

-- Nothing is left of the default configuration: its one device has the protocol "mock".
default_starts_nothing :
    Returns
      (λ m. m.devices ≡ GoMap.empty)
      (start client new_client
        ("device-1" ∷ [])
        5
        (new_devices client new_client default_config.devices))
unfolding DeviceManager.start_auto_scan DeviceManager.new_device_manager start start_devices
    new_devices default_config default_device Factory.start Factory.add_device_from_config
    create_device_config convert_device_type convert_string_params_to_interface GoMap.get GoMap.put
    GoMap.empty
default_starts_nothing = refl

abbrev no_number : Float64 → ℕ
no_number x = 0

abbrev plotter : Device
plotter = mock (Mock.connect 1 (Mock.new_mock_device "plotter" default_device))

reads_what_was_written :
    Mock.read "position"
      (Mock.write home 7 (Mock.connect 1 (Mock.new_mock_device "plotter" default_device))).0
    ≡ inr (point home.position)
unfolding Mock.read Mock.write Mock.connect Mock.new_mock_device set_connected set_status
    new_base_device
reads_what_was_written = refl

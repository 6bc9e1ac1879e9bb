-- ===== src/DeviceManager/Examples.antt =====
-- internal/hardware/devices/manager.go: a manager of one device whose client always connects, and the
-- theorems at it.
use go_control.Prelude.{false, none, List, [], ◌∷◌, inr}
use go_control.GoMap
use go_control.Outcome.{Holds}
use go_control.Comm.{ConnectionStatus, disconnected, connected}
use go_control.DeviceManager.{
  DeviceConfig, CommunicationInterface, modbus_tcp, modbus_settings, serial_settings,
  new_device_manager,
}
use go_control.DeviceManager.Consistency.{
  Call, adds, connects, removes, stops, run, IsConsistent, run-IsConsistent,
}

abbrev client : CommunicationInterface ConnectionStatus
client = record {
  get_status = λ c. c;
  connect = λ c. (connected, none);
  disconnect = λ c. (disconnected, none);
  reconnect = λ c. (connected, none);
  read = λ address n c. inr [];
  write = λ address bytes c. (c, none);
  add_event_handler = λ h c. c;
  remove_event_handler = λ h c. c;
}

abbrev make_client : DeviceConfig → ConnectionStatus
make_client config = disconnected

abbrev arm : DeviceConfig
arm = record {
  id = "arm";
  name = "Arm";
  kind = modbus_tcp;
  settings = modbus_settings;
  timeout = 1000;
  auto_connect = false;
}

abbrev wrong : DeviceConfig
wrong = record arm { settings = serial_settings }

abbrev day : List (Call client make_client)
day = adds arm 1 ∷ connects "arm" ∷ adds arm 2 ∷ removes "arm" 3 ∷ adds wrong 4 ∷ stops ∷ []

run-IsConsistent_example :
    Holds (IsConsistent client make_client) (run client make_client day (new_device_manager client))
unfolding new_device_manager GoMap.empty GoMap.get
run-IsConsistent_example =
    run-IsConsistent client make_client day (new_device_manager client) (λ id. tt)

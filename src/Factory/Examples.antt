-- ===== src/Factory/Examples.antt =====
-- The theorem about internal/hardware/factory.go at a Modbus device with a port, and tests.
use go_control.Prelude.{◌≡◌, refl, inl, inr}
use go_control.GoMap
use go_control.Types.{DeviceConfig}
use go_control.DeviceManager
use go_control.DeviceManager.{modbus_tcp, modbus_settings}
use go_control.Factory.Protocols.{
  described, convert_device_type, create_device_config, create_modbus_config,
  convert_string_params_to_interface, modbus,
}
use go_control.Factory.Settings.{HasNoNumbers, create_device_config-HasNoNumbers}

abbrev drive : DeviceConfig
drive = record {
  kind = "controller";
  protocol = "modbus_tcp";
  endpoint = "10.0.0.7";
  parameters = GoMap.put (GoMap.put GoMap.empty "port" "502") "address" "10.0.0.7";
  timeout = 1000;
  retry_count = 3;
}

abbrev made : DeviceManager.DeviceConfig
made = described "drive" drive modbus_tcp modbus_settings

creates : create_device_config "drive" drive ≡ inr (made, modbus (create_modbus_config drive))
unfolding create_device_config convert_device_type
creates = refl

create_device_config-HasNoNumbers_example : HasNoNumbers (modbus (create_modbus_config drive))
create_device_config-HasNoNumbers_example =
    create_device_config-HasNoNumbers drive "drive" made (modbus (create_modbus_config drive))
      creates

keeps_the_address : (create_modbus_config drive).address ≡ "10.0.0.7"
unfolding create_modbus_config convert_string_params_to_interface GoMap.get GoMap.put GoMap.empty
keeps_the_address = refl

no_mock : convert_device_type (record drive { protocol = "mock" }) ≡ inl "mock"
unfolding convert_device_type convert_string_params_to_interface GoMap.get GoMap.put GoMap.empty
no_mock = refl

-- ===== src/Factory/Settings.antt =====
-- internal/hardware/factory.go: what reaches the clients of the parameters of a device.
use go_control.Prelude.{String, ◌≡◌, refl, false, Option, none, some, ◌⊎◌, inl, inr, subst}
use go_control.GoMap
use go_control.GoMap.{GoMap}
use go_control.Types.{DeviceConfig}
use go_control.Nodes.{pos}
use go_control.DeviceManager
use go_control.DeviceManager.{DeviceType}
use go_control.Factory.Protocols.{
  ProtocolConfig, modbus, serial, custom, Created, as_value, int_or, bool_or,
  convert_string_params_to_interface, create_device_config, created_as, convert_device_type,
  create_modbus_config, create_serial_config, create_custom_config,
}

-- All numbers and flags have their zero value.
abbrev pub HasNoNumbers : ProtocolConfig → Type 0
HasNoNumbers (modbus c) =
    (c.port ≡ pos 0)
    × (c.baud_rate ≡ pos 0)
    × (c.data_bits ≡ pos 0)
    × (c.stop_bits ≡ pos 0)
    × (c.slave_id ≡ 0)
HasNoNumbers (serial c) =
    (c.baud_rate ≡ pos 0)
    × (c.data_bits ≡ pos 0)
    × (c.stop_bits ≡ pos 0)
    × (c.flow_control ≡ false)
    × (c.rs485 ≡ false)
HasNoNumbers (custom c) = (c.port ≡ pos 0) × (c.max_frame_size ≡ pos 0) × (c.big_endian ≡ false)

abbrev HasNoNumbersIn : Created → Type 0
HasNoNumbersIn (inl e) = Unit
HasNoNumbersIn (inr (c, detail)) = HasNoNumbers detail

no_int : (o : Option String) → int_or (as_value o) ≡ pos 0
no_int none = refl
no_int (some s) = refl

no_bool : (o : Option String) → bool_or (as_value o) ≡ false
no_bool none = refl
no_bool (some s) = refl

module _ (device : DeviceConfig) where
  abbrev at : String → Option String
  at key = GoMap.get device.parameters key

  modbus-HasNoNumbers : HasNoNumbers (modbus (create_modbus_config device))
  unfolding create_modbus_config convert_string_params_to_interface
  modbus-HasNoNumbers = (
    no_int (at "port"),
    no_int (at "baud_rate"),
    no_int (at "data_bits"),
    no_int (at "stop_bits"),
    rw (no_int (at "slave_id")) refl,
  )

  serial-HasNoNumbers : HasNoNumbers (serial (create_serial_config device))
  unfolding create_serial_config convert_string_params_to_interface
  serial-HasNoNumbers = (
    no_int (at "baud_rate"),
    no_int (at "data_bits"),
    no_int (at "stop_bits"),
    no_bool (at "flow_control"),
    no_bool (at "rs485"),
  )

  custom-HasNoNumbers : HasNoNumbers (custom (create_custom_config device))
  unfolding create_custom_config convert_string_params_to_interface
  custom-HasNoNumbers =
      (no_int (at "port"), no_int (at "max_frame_size"), no_bool (at "big_endian"))

  created-HasNoNumbers :
      (id : String) (kind : String ⊎ DeviceType) → HasNoNumbersIn (created_as id device kind)
  created-HasNoNumbers id (inl e) = tt
  created-HasNoNumbers id (inr DeviceType.unknown) = tt
  created-HasNoNumbers id (inr DeviceType.modbus_tcp) = modbus-HasNoNumbers
  created-HasNoNumbers id (inr DeviceType.modbus_rtu) = modbus-HasNoNumbers
  created-HasNoNumbers id (inr DeviceType.modbus_ascii) = modbus-HasNoNumbers
  created-HasNoNumbers id (inr DeviceType.serial_port) = serial-HasNoNumbers
  created-HasNoNumbers id (inr DeviceType.custom_protocol) = custom-HasNoNumbers

  -- Whatever the parameters of a device say, the configuration of its client has no port, no baud rate,
  -- no data or stop bits, no slave id, no frame size and no flag: they keep their zero values.
  pub create_device_config-HasNoNumbers :
      (id : String) (c : DeviceManager.DeviceConfig) (detail : ProtocolConfig)
      → create_device_config id device ≡ inr (c, detail)
      → HasNoNumbers detail
  unfolding create_device_config
  create_device_config-HasNoNumbers id c detail h =
      subst HasNoNumbersIn h (created-HasNoNumbers id (convert_device_type device))

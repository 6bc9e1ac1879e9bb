-- ===== src/Factory/Protocols.antt =====
-- internal/hardware/factory.go: the configuration of a client, by its protocol, made of the parameters
-- of a device.
use go_control.Prelude.{
  ℕ, ◌*◌, ◌-◌, ◌%◌, String, Bool, true, false, Option, none, some, ◌⊎◌, inl, inr, str_eq,
  if◌then◌else◌,
}
use go_control.GoMap
use go_control.GoMap.{GoMap}
use go_control.Types.{DeviceConfig}
use go_control.Nodes.{ℤ, pos, negsuc, Value, text, int, boolean}
use go_control.NodeDecomposer.{one_second}
use go_control.Comm.{ConnectionConfig}
use go_control.DeviceManager
use go_control.DeviceManager.{
  DeviceManager, DeviceType, unknown, modbus_tcp, modbus_rtu, modbus_ascii, serial_port,
  custom_protocol, modbus_settings, serial_settings, custom_settings,
}

pub record ModbusConfig : Type 0 where
  pub connection : ConnectionConfig
  pub kind : String
  pub address : String
  pub port : ℤ
  pub baud_rate : ℤ
  pub data_bits : ℤ
  pub stop_bits : ℤ
  pub parity : String
  pub slave_id : ℕ
  pub timeout : String

pub record SerialConfig : Type 0 where
  pub connection : ConnectionConfig
  pub port_name : String
  pub baud_rate : ℤ
  pub data_bits : ℤ
  pub stop_bits : ℤ
  pub parity : String
  pub timeout : String
  pub flow_control : Bool
  pub rs485 : Bool

pub record CustomProtocolConfig : Type 0 where
  pub connection : ConnectionConfig
  pub protocol_type : String
  pub address : String
  pub port : ℤ
  pub timeout : String
  pub frame_delimiter : String
  pub header : String
  pub trailer : String
  pub checksum_method : String
  pub big_endian : Bool
  pub max_frame_size : ℤ
  pub encoding : String

-- What the field Config of `devices.DeviceConfig` holds.
pub data ProtocolConfig : Type 0 where
  modbus : ModbusConfig → ProtocolConfig
  serial : SerialConfig → ProtocolConfig
  custom : CustomProtocolConfig → ProtocolConfig

abbrev pub Parameters : Type 0
Parameters = String → Option Value

abbrev pub as_value : Option String → Option Value
as_value none = none
as_value (some s) = some (text s)

unfoldable pub convert_string_params_to_interface : GoMap String → Parameters
convert_string_params_to_interface params key = as_value (GoMap.get params key)

-- `if s, ok := m[key].(string); ok { x = s }`, and so for an `int` and a `bool`, over the zero value.
abbrev pub text_or : Option Value → String
text_or (some (text s)) = s
text_or _ = ""

abbrev pub int_or : Option Value → ℤ
int_or (some (int n)) = n
int_or _ = pos 0

abbrev pub bool_or : Option Value → Bool
bool_or (some (boolean b)) = b
bool_or _ = false

-- `byte(n)`
abbrev pub byte_of : ℤ → ℕ
byte_of (pos n) = n % 256
byte_of (negsuc n) = 255 - n % 256

abbrev pub connection_config : ℕ → Bool → ConnectionConfig
connection_config seconds keep_alive = record {
  timeout = seconds * one_second;
  retry_count = 3;
  retry_interval = one_second;
  keep_alive = keep_alive;
}

unfoldable pub create_modbus_config : DeviceConfig → ModbusConfig
create_modbus_config device =
    let m = convert_string_params_to_interface device.parameters in
    record {
      connection = connection_config 10 true;
      kind = text_or (m "type");
      address = text_or (m "address");
      port = int_or (m "port");
      baud_rate = int_or (m "baud_rate");
      data_bits = int_or (m "data_bits");
      stop_bits = int_or (m "stop_bits");
      parity = text_or (m "parity");
      slave_id = byte_of (int_or (m "slave_id"));
      timeout = text_or (m "timeout");
    }

unfoldable pub create_serial_config : DeviceConfig → SerialConfig
create_serial_config device =
    let m = convert_string_params_to_interface device.parameters in
    record {
      connection = connection_config 5 false;
      port_name = text_or (m "port_name");
      baud_rate = int_or (m "baud_rate");
      data_bits = int_or (m "data_bits");
      stop_bits = int_or (m "stop_bits");
      parity = text_or (m "parity");
      timeout = text_or (m "timeout");
      flow_control = bool_or (m "flow_control");
      rs485 = bool_or (m "rs485");
    }

unfoldable pub create_custom_config : DeviceConfig → CustomProtocolConfig
create_custom_config device =
    let m = convert_string_params_to_interface device.parameters in
    record {
      connection = connection_config 5 true;
      protocol_type = text_or (m "protocol_type");
      address = text_or (m "address");
      port = int_or (m "port");
      timeout = text_or (m "timeout");
      frame_delimiter = text_or (m "frame_delimiter");
      header = text_or (m "header");
      trailer = text_or (m "trailer");
      checksum_method = text_or (m "checksum_method");
      big_endian = bool_or (m "big_endian");
      max_frame_size = int_or (m "max_frame_size");
      encoding = text_or (m "encoding");
    }

-- The type that the parameters name. Without one, `text_or` gives a text that none of the cases is.
abbrev pub inferred : String → String → String ⊎ DeviceType
inferred protocol kind =
    if str_eq kind "tcp"
    then inr modbus_tcp
    else if str_eq kind "rtu"
    then inr modbus_rtu
    else if str_eq kind "ascii"
    then inr modbus_ascii
    else inl protocol

-- The error is `unknown protocol type` with the protocol.
unfoldable pub convert_device_type : DeviceConfig → String ⊎ DeviceType
convert_device_type device =
    if str_eq device.protocol "modbus_tcp"
    then inr modbus_tcp
    else if str_eq device.protocol "modbus_rtu"
    then inr modbus_rtu
    else if str_eq device.protocol "modbus_ascii"
    then inr modbus_ascii
    else if str_eq device.protocol "serial"
    then inr serial_port
    else if str_eq device.protocol "custom"
    then inr custom_protocol
    else inferred device.protocol
        (text_or (convert_string_params_to_interface device.parameters "type"))

abbrev pub Created : Type 0
Created = String ⊎ (DeviceManager.DeviceConfig × ProtocolConfig)

abbrev pub described :
    String → DeviceConfig → DeviceType → DeviceManager.Settings → DeviceManager.DeviceConfig
described id device kind settings = record {
  id = id;
  name = device.kind;
  kind = kind;
  settings = settings;
  timeout = device.timeout;
  auto_connect = true;
}

abbrev pub modbus_device : String → DeviceConfig → DeviceType → Created
modbus_device id device kind =
    inr (described id device kind modbus_settings, modbus (create_modbus_config device))

abbrev pub created_as : String → DeviceConfig → String ⊎ DeviceType → Created
created_as id device (inl e) = inl e
created_as id device (inr modbus_tcp) = modbus_device id device modbus_tcp
created_as id device (inr modbus_rtu) = modbus_device id device modbus_rtu
created_as id device (inr modbus_ascii) = modbus_device id device modbus_ascii
created_as id device (inr serial_port) =
    inr (described id device serial_port serial_settings, serial (create_serial_config device))
created_as id device (inr custom_protocol) =
    inr (described id device custom_protocol custom_settings, custom (create_custom_config device))
created_as id device (inr unknown) = inl "unsupported device type"

unfoldable pub create_device_config : String → DeviceConfig → Created
create_device_config id device = created_as id device (convert_device_type device)

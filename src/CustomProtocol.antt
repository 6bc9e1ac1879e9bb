-- ===== src/CustomProtocol.antt =====
-- internal/hardware/protocols/custom/custom.go: the client of a custom protocol. The types that only
-- describe a device, and its discovery, are left out. `utf8` are the bytes of a string, and `from_utf8`
-- reads them; the conversions of a float64 to an integer type, and back, are parameters too.
pub mod Encoding
pub mod Frames
pub mod Checks
pub mod Answers
mod Examples
use go_control.Prelude.{ℕ, String, Bool, false, List}
use go_control.GoMap
use go_control.GoMap.{GoMap}
use go_control.Types.{Float64}
use go_control.Nodes.{ℤ}
use go_control.Comm.{BaseCommunication, ConnectionConfig, new_base_communication}

-- What an `interface{}` of the parameters holds.
pub data Param : Type 0 where
  int : ℤ → Param
  float : Float64 → Param
  text : String → Param
  raw : List ℕ → Param
  other : Param

-- The name, the type, the size and the offset of a field; the scale and the encoding are not read.
pub record FieldDefinition : Type 0 where
  pub name : String
  pub kind : String
  pub size : ℕ
  pub offset : ℕ

pub record CommandDefinition : Type 0 where
  pub name : String
  pub command_code : String
  pub fields : List FieldDefinition

pub record ResponseDefinition : Type 0 where
  pub command_code : String
  pub fields : List FieldDefinition

-- The fields that the client reads.
pub record CustomProtocolConfig : Type 0 where
  pub connection : ConnectionConfig
  pub header : String
  pub trailer : String
  pub checksum_method : String
  pub big_endian : Bool

-- `connected` is whether `connection` is set.
pub record CustomProtocolClient : Type 0 where
  pub base : BaseCommunication
  pub config : CustomProtocolConfig
  pub commands : GoMap CommandDefinition
  pub responses : GoMap ResponseDefinition
  pub connected : Bool

pub data Error : Type 0 where
  unsupported_type : String → Error
  invalid_header invalid_code invalid_trailer not_connected timed_out context_done : Error
  not_defined : String → Error

unfoldable pub new_custom_protocol_client : CustomProtocolConfig → CustomProtocolClient
new_custom_protocol_client config = record {
  base = new_base_communication config.connection;
  config = config;
  commands = GoMap.empty;
  responses = GoMap.empty;
  connected = false;
}

unfoldable pub register_command : CommandDefinition → CustomProtocolClient → CustomProtocolClient
register_command cmd c = record c { commands = GoMap.put c.commands cmd.name cmd }

unfoldable pub register_response : ResponseDefinition → CustomProtocolClient → CustomProtocolClient
register_response resp c = record c { responses = GoMap.put c.responses resp.command_code resp }

-- ===== src/DeviceManager/Devices.antt =====
-- internal/hardware/devices/manager.go: the types of devices, their configurations and their events.
use go_control.Prelude.{ℕ, String, Bool, Option, List, [], ◌∷◌, ◌⊎◌, ◌==◌, if◌then◌else◌}
use go_control.Comm.{ConnectionStatus}

pub data DeviceType : Type 0 where
  unknown modbus_tcp modbus_rtu modbus_ascii serial_port custom_protocol : DeviceType

-- The dynamic type of the field Config.
pub data Settings : Type 0 where
  modbus_settings serial_settings custom_settings other_settings : Settings

-- Protocol, Enabled, Properties and Parameters, which the manager only stores, are left out.
pub record DeviceConfig : Type 0 where
  pub id : String
  pub name : String
  pub kind : DeviceType
  pub settings : Settings
  pub timeout : ℕ
  pub auto_connect : Bool

-- comm.CommunicationInterface: the operations that a device calls. A call that fails returns its error.
pub record CommunicationInterface (C : Type 0) : Type 0 where
  pub get_status : C → ConnectionStatus
  pub connect : C → C × Option String
  pub disconnect : C → C × Option String
  pub reconnect : C → C × Option String
  pub read : String → ℕ → C → String ⊎ List ℕ
  pub write : String → List ℕ → C → C × Option String
  pub add_event_handler : ℕ → C → C
  pub remove_event_handler : ℕ → C → C

pub record BaseDevice (C : Type 0) : Type 0 where
  pub config : DeviceConfig
  pub comm : Option C
  pub status : ConnectionStatus
  pub last_error : Option String
  pub event_handlers : List ℕ

pub record DeviceEvent : Type 0 where
  pub kind : String
  pub device_id : String
  pub timestamp : ℕ
  pub config : Option DeviceConfig

abbrev pub not_initialized : String
not_initialized = "communication interface not initialized"

-- A list without the first occurrence of a handler.
unfoldable pub without_handler : ℕ → List ℕ → List ℕ
without_handler h [] = []
without_handler h (k ∷ ks) = let rest = without_handler h ks in if k == h then ks else k ∷ rest

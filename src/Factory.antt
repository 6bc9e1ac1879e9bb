-- ===== src/Factory.antt =====
-- internal/hardware/factory.go: the configurations of clients that are made of `types.DeviceConfig`. A
-- `map[string]interface{}` made of the parameters is the function that looks a key up. `show_value` is
-- what `%v` prints, `parse_duration` is time.ParseDuration. Properties, and with them the definitions of
-- commands and responses, are left out: `params["commands"]` is never a list.
pub mod Protocols
pub mod Settings
mod Examples
use go_control.Prelude.{ℕ, ◌*◌, String, Option, none, some, inl, inr, str_eq, if◌then◌else◌}
use go_control.GoMap
use go_control.GoMap.{GoMap}
use go_control.Outcome.{Outcome, returns}
use go_control.Types.{DeviceConfig}
use go_control.Nodes.{Value, text, Table, table, no_entries, entry, field}
use go_control.NodeDecomposer.{one_second}
use go_control.DeviceManager
use go_control.DeviceManager.{CommunicationInterface, DeviceManager, add_device, start_auto_scan}
use go_control.Factory.Protocols.{Created, ProtocolConfig, create_device_config, text_or}

-- getString and getMap.
abbrev pub get_string : Table → String → String
get_string m key = text_or (field m key)

abbrev pub table_or : Option Value → Table
table_or (some (table t)) = t
table_or _ = no_entries

abbrev pub get_map : Table → String → Table
get_map m key = table_or (field m key)

module _ (show_value : Value → String) where
  abbrev pub printed : Value → String
  printed (text s) = s
  printed v = show_value v

  -- An entry of the table stands for the key; no key has two.
  unfoldable pub string_params : Table → GoMap String
  string_params no_entries = GoMap.empty
  string_params (entry k v rest) = GoMap.put (string_params rest) k (printed v)

  module _ (parse_duration : String → Option ℕ) where
    abbrev pub timeout_or : Option Value → ℕ
    timeout_or (some (text s)) = elim (parse_duration s) [ none ↦ 10 * one_second | some d ↦ d ]
    timeout_or _ = 10 * one_second

    unfoldable pub config_of_map : Table → DeviceConfig
    config_of_map m = record {
      kind = get_string m "type";
      protocol = get_string m "protocol";
      endpoint = get_string m "endpoint";
      timeout = timeout_or (field m "timeout");
      retry_count = 3;
      parameters = string_params (get_map m "parameters");
    }

-- `new_client` makes the client of a configuration.
module _ {C : Type 0} (ops : CommunicationInterface C)
    (new_client : ProtocolConfig → DeviceManager.DeviceConfig → C) where
  abbrev pub Result : Type 0
  Result = Outcome (DeviceManager C × Option String)

  abbrev pub added : ℕ → DeviceManager C → Created → Result
  added now dm (inl e) = returns (dm, some e)
  added now dm (inr (config, detail)) = add_device ops (new_client detail) config now dm

  unfoldable pub add_device_from_config : String → DeviceConfig → ℕ → DeviceManager C → Result
  add_device_from_config id device now dm = added now dm (create_device_config id device)

  unfoldable pub add_device_from_config_map :
      (Value → String) → (String → Option ℕ) → Table → ℕ → DeviceManager C → Result
  add_device_from_config_map show_value parse_duration m now dm =
      if str_eq (get_string m "id") ""
      then returns (dm, some "device ID is required")
      else add_device_from_config (get_string m "id") (config_of_map show_value parse_duration m)
          now dm

  -- Start and Stop of the factory.
  unfoldable pub start : DeviceManager C → Outcome (DeviceManager C)
  start dm = start_auto_scan ops (30 * one_second) dm

  unfoldable pub stop : DeviceManager C → Outcome (DeviceManager C)
  stop dm = DeviceManager.stop ops dm

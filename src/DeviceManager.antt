-- ===== src/DeviceManager.antt =====
-- internal/hardware/devices/manager.go: the base device and the device manager. The communication of a
-- device is an interface of the source, and a parameter here: a type `C` of client states with its
-- operations; `new_client` is what NewModbusClient, NewSerialClient and NewCustomProtocolClient make
-- of a configuration. An error is its text, an event handler a number, and the manager the handler 0.
-- Each operation of the manager runs under its lock. The order in which `range` visits a map is a
-- parameter.
mod Devices
pub mod Consistency
pub mod Stopping
mod Examples
unfoldable pub use Devices.*
use go_control.Prelude.{
  ℕ, String, Bool, true, false, not, Option, none, some, List, [], ◌∷◌, ◌++◌, ◌⊎◌, inl, inr,
  if◌then◌else◌, ◌==◌,
}
use go_control.GoMap
use go_control.GoMap.{GoMap}
use go_control.Channel.{Channel, Send, delivered, full, panicked, make, try_send, close}
use go_control.Outcome.{Outcome, returns, panics, deadlocks, and_then}
use go_control.Comm.{
  ConnectionStatus, disconnected, connecting, connected, error, is_connected_status,
}

pub record DeviceManager (C : Type 0) : Type 0 where
  pub devices : GoMap (BaseDevice C)
  pub configs : GoMap DeviceConfig
  pub cancelled : Bool
  pub event_chan : Channel DeviceEvent
  pub auto_scan : Bool

module _ {C : Type 0} (ops : CommunicationInterface C) where
  unfoldable pub new_base_device : DeviceConfig → BaseDevice C
  new_base_device config = record {
    config = config;
    comm = none;
    status = disconnected;
    last_error = none;
    event_handlers = [];
  }

  unfoldable pub get_status : BaseDevice C → ConnectionStatus
  get_status d = elim d.comm [ none ↦ d.status | some c ↦ ops.get_status c ]

  abbrev pub is_connected : BaseDevice C → Bool
  is_connected d = is_connected_status (get_status d)

  -- The fields behind a call of Connect or Reconnect.
  abbrev pub connected_as : BaseDevice C → C × Option String → BaseDevice C × Option String
  connected_as d (c, some e) =
      (record d { comm = some c; status = error; last_error = some e }, some e)
  connected_as d (c, none) =
      (record d { comm = some c; status = connected; last_error = none }, none)

  unfoldable pub connect : BaseDevice C → BaseDevice C × Option String
  connect d = elim d.comm [
    | none ↦ (d, some not_initialized)
    | some c ↦ connected_as (record d { status = connecting }) (ops.connect c)
  ]

  abbrev pub disconnected_as : BaseDevice C → C × Option String → BaseDevice C × Option String
  disconnected_as d (c, e) = (record d { comm = some c; status = disconnected; last_error = e }, e)

  unfoldable pub disconnect : BaseDevice C → BaseDevice C × Option String
  disconnect d = elim d.comm [ none ↦ (d, none) | some c ↦ disconnected_as d (ops.disconnect c) ]

  unfoldable pub reconnect : BaseDevice C → BaseDevice C × Option String
  reconnect d = elim d.comm [
    | none ↦ (d, some not_initialized)
    | some c ↦ connected_as d (ops.reconnect c)
  ]

  unfoldable pub read : String → ℕ → BaseDevice C → String ⊎ List ℕ
  read address length d = elim d.comm [
    | none ↦ inl not_initialized
    | some c ↦ ops.read address length c
  ]

  abbrev pub written_as : BaseDevice C → C × Option String → BaseDevice C × Option String
  written_as d (c, e) = (record d { comm = some c }, e)

  unfoldable pub write : String → List ℕ → BaseDevice C → BaseDevice C × Option String
  write address bytes d = elim d.comm [
    | none ↦ (d, some not_initialized)
    | some c ↦ written_as d (ops.write address bytes c)
  ]

  abbrev pub on_comm : (C → C) → Option C → Option C
  on_comm f none = none
  on_comm f (some c) = some (f c)

  unfoldable pub add_event_handler : ℕ → BaseDevice C → BaseDevice C
  add_event_handler h d = record d {
    event_handlers = d.event_handlers ++ h ∷ [];
    comm = on_comm (ops.add_event_handler h) d.comm;
  }

  unfoldable pub remove_event_handler : ℕ → BaseDevice C → BaseDevice C
  remove_event_handler h d = record d {
    event_handlers = without_handler h d.event_handlers;
    comm = on_comm (ops.remove_event_handler h) d.comm;
  }

  -- The loop that adds all handlers of the device to its new communication. What becomes of the old
  -- one, which the device drops, is left out.
  unfoldable pub added_to : List ℕ → C → C
  added_to [] c = c
  added_to (h ∷ hs) c = added_to hs (ops.add_event_handler h c)

  unfoldable pub set_communication : C → BaseDevice C → BaseDevice C
  set_communication c d = record d { comm = some (added_to d.event_handlers c) }

  module _ (new_client : DeviceConfig → C) where
    abbrev pub with_client : DeviceConfig → String ⊎ BaseDevice C
    with_client config = inr (set_communication (new_client config) (new_base_device config))

    -- The type assertions of NewModbusDevice, NewSerialDevice and NewCustomDevice.
    abbrev pub as_modbus : DeviceConfig → Settings → String ⊎ BaseDevice C
    as_modbus config modbus_settings = with_client config
    as_modbus config _ = inl "invalid Modbus config"

    abbrev pub as_serial : DeviceConfig → Settings → String ⊎ BaseDevice C
    as_serial config serial_settings = with_client config
    as_serial config _ = inl "invalid serial config"

    abbrev pub as_custom : DeviceConfig → Settings → String ⊎ BaseDevice C
    as_custom config custom_settings = with_client config
    as_custom config _ = inl "invalid custom protocol config"

    unfoldable pub new_modbus_device : DeviceConfig → String ⊎ BaseDevice C
    new_modbus_device config = as_modbus config config.settings

    unfoldable pub new_serial_device : DeviceConfig → String ⊎ BaseDevice C
    new_serial_device config = as_serial config config.settings

    -- The commands and responses that it registers with the client are part of `new_client`.
    unfoldable pub new_custom_device : DeviceConfig → String ⊎ BaseDevice C
    new_custom_device config = as_custom config config.settings

    abbrev pub of_type : DeviceConfig → DeviceType → String ⊎ BaseDevice C
    of_type config modbus_tcp = new_modbus_device config
    of_type config modbus_rtu = new_modbus_device config
    of_type config modbus_ascii = new_modbus_device config
    of_type config serial_port = new_serial_device config
    of_type config custom_protocol = new_custom_device config
    of_type config unknown = inl "unsupported device type"

    unfoldable pub create_device : DeviceConfig → String ⊎ BaseDevice C
    create_device config = of_type config config.kind

  unfoldable pub new_device_manager : DeviceManager C
  new_device_manager = record {
    devices = GoMap.empty;
    configs = GoMap.empty;
    cancelled = false;
    event_chan = make 100;
    auto_scan = false;
  }

  abbrev pub sent : DeviceManager C → Send DeviceEvent → Outcome (DeviceManager C)
  sent dm (delivered c) = returns (record dm { event_chan = c })
  sent dm full = returns dm
  sent dm panicked = panics

  -- emitEvent; an event that finds the channel full is dropped.
  unfoldable pub emit_event : DeviceEvent → DeviceManager C → Outcome (DeviceManager C)
  emit_event e dm = sent dm (try_send dm.event_chan e)

  -- What a call of the manager returns: its state, or a panic, with an error or none.
  abbrev pub Result : Type 0
  Result = Outcome (DeviceManager C × Option String)

  abbrev pub emitting : DeviceEvent → DeviceManager C → Result
  emitting e dm = and_then (emit_event e dm) λ after. returns (after, none)

  abbrev pub added : DeviceConfig → ℕ → DeviceManager C → String ⊎ BaseDevice C → Result
  added config now dm (inl e) = returns (dm, some e)
  added config now dm (inr d) =
      emitting
        (record {
          kind = "device_added";
          device_id = config.id;
          timestamp = now;
          config = some config;
        })
        (record dm { devices = GoMap.put dm.devices config.id (add_event_handler 0 d) })

  -- AddDevice. The goroutine that it starts for `auto_connect` is a later call of Connect.
  unfoldable pub add_device : (DeviceConfig → C) → DeviceConfig → ℕ → DeviceManager C → Result
  add_device new_client config now dm = elim (GoMap.get dm.devices config.id) [
    | some d ↦ returns (dm, some "already exists")
    | none ↦
        added config now (record dm { configs = GoMap.put dm.configs config.id config })
          (create_device new_client config)
  ]

  -- RemoveDevice. The device that it disconnects is dropped, and an error of the disconnection is only
  -- logged.
  unfoldable pub remove_device : String → ℕ → DeviceManager C → Result
  remove_device id now dm = elim (GoMap.get dm.devices id) [
    | none ↦ returns (dm, some "not found")
    | some d ↦
        emitting
          (record { kind = "device_removed"; device_id = id; timestamp = now; config = none })
          (record dm { devices = GoMap.remove dm.devices id; configs = GoMap.remove dm.configs id })
  ]

  -- ConnectDevice, DisconnectDevice, ReconnectDevice and WriteDevice: `call` is the method of the device.
  unfoldable pub on_device :
      String
      → (BaseDevice C → BaseDevice C × Option String)
      → DeviceManager C
      → DeviceManager C × Option String
  on_device id call dm = elim (GoMap.get dm.devices id) [
    | none ↦ (dm, some "not found")
    | some d ↦ (record dm { devices = GoMap.put dm.devices id (call d).0 }, (call d).1)
  ]

  unfoldable pub connect_device : String → DeviceManager C → DeviceManager C × Option String
  connect_device id dm = on_device id connect dm

  unfoldable pub disconnect_device : String → DeviceManager C → DeviceManager C × Option String
  disconnect_device id dm = on_device id disconnect dm

  unfoldable pub reconnect_device : String → DeviceManager C → DeviceManager C × Option String
  reconnect_device id dm = on_device id reconnect dm

  unfoldable pub write_device :
      String → String → List ℕ → DeviceManager C → DeviceManager C × Option String
  write_device id address bytes dm = on_device id (write address bytes) dm

  unfoldable pub read_device : String → String → ℕ → DeviceManager C → String ⊎ List ℕ
  read_device id address length dm = elim (GoMap.get dm.devices id) [
    | none ↦ inl "not found"
    | some d ↦ read address length d
  ]

  -- StartAutoScan, which makes a ticker: one without a positive interval panics. The goroutine that it
  -- starts calls scanDevices until the manager's context is done.
  unfoldable pub start_auto_scan : ℕ → DeviceManager C → Outcome (DeviceManager C)
  start_auto_scan interval dm =
      if dm.auto_scan
      then returns dm
      else if interval == 0
      then panics
      else returns (record dm { auto_scan = true })

  unfoldable pub stop_auto_scan : DeviceManager C → DeviceManager C
  stop_auto_scan dm = record dm { auto_scan = false }

  -- scanDevices over the configurations in the order of `range`: the ids that it reconnects.
  unfoldable pub scan_devices : List DeviceConfig → DeviceManager C → List String
  scan_devices [] dm = []
  scan_devices (config ∷ rest) dm =
      let later = scan_devices rest dm in
      elim (GoMap.get dm.devices config.id) [
        | none ↦ later
        | some d ↦ if is_connected d then later else config.id ∷ later
      ]

  abbrev pub disconnected_if : BaseDevice C → BaseDevice C
  disconnected_if d = if is_connected d then (disconnect d).0 else d

  -- Stop holds the lock that StopAutoScan takes.
  unfoldable pub stop : DeviceManager C → Outcome (DeviceManager C)
  stop dm =
      let off = record dm {
        cancelled = true;
        devices = GoMap.map_values disconnected_if dm.devices;
      } in
      if off.auto_scan
      then deadlocks
      else if off.event_chan.closed
      then panics
      else returns (record off { event_chan = close off.event_chan })

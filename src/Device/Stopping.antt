-- ===== src/Device/Stopping.antt =====
-- internal/device/device.go: Stop after Start.
use go_control.Prelude.{
  ℕ, String, ◌≡◌, refl, true, false, Option, none, some, List, [], ◌∷◌, ◌⊎◌, inl, inr, arith,
  length, ltb, Option-cases, Bool-cases,
}
use go_control.GoMap
use go_control.GoMap.{GoMap}
use go_control.Channel.{try_send}
use go_control.Outcome.{returns, deadlocks, Returns, Returns_weaken, and_then-Returns}
use go_control.Types.{DeviceConfig}
use go_control.DeviceManager
use go_control.DeviceManager.{
  CommunicationInterface, DeviceEvent, connect_device, on_device, emit_event, emitting, add_device,
  added, create_device, new_device_manager, start_auto_scan, BaseDevice,
}
use go_control.Factory
use go_control.Factory.{add_device_from_config}
use go_control.Factory.Protocols.{ProtocolConfig, Created, create_device_config}
use go_control.Device
use go_control.Device.{
  Device, Devices, connected_as, wrapped_as, added_as, start_device, start_devices, start, stop,
  new_devices,
}
use go_control.Device.Kinds.{DeviceError}

module _ {C : Type 0} (ops : CommunicationInterface C)
    (new_client : ProtocolConfig → DeviceManager.DeviceConfig → C) where
  -- Automatic scanning is on, and the channel of events is open.
  abbrev IsOn : DeviceManager.DeviceManager C → Type 0
  IsOn dm = (dm.auto_scan ≡ true) × (dm.event_chan.closed ≡ false)

  abbrev IsOnIn : DeviceManager.DeviceManager C × Option String → Type 0
  IsOnIn r = IsOn r.0

  emitting-IsOn :
      (e : DeviceEvent) (dm : DeviceManager.DeviceManager C)
      → IsOn dm
      → Returns IsOnIn (emitting ops e dm)
  unfolding emit_event try_send
  emitting-IsOn e dm h =
      elim (Bool-cases (ltb (length dm.event_chan.buffer) dm.event_chan.capacity)) [
        | inl room ↦ rw h.1 (rw room (h.0, refl))
        | inr none_left ↦ rw h.1 (rw none_left (h.0, refl))
      ]

  created-IsOn :
      (config : DeviceManager.DeviceConfig) (now : ℕ) (dm : DeviceManager.DeviceManager C)
      (d : String ⊎ BaseDevice C)
      → IsOn dm
      → Returns IsOnIn (added ops config now dm d)
  created-IsOn config now dm (inl e) h = h
  created-IsOn config now dm (inr d) h = emitting-IsOn _ _ h

  add_device-IsOn :
      (make : DeviceManager.DeviceConfig → C) (config : DeviceManager.DeviceConfig) (now : ℕ)
      (dm : DeviceManager.DeviceManager C)
      → IsOn dm
      → Returns IsOnIn (add_device ops make config now dm)
  unfolding add_device
  add_device-IsOn make config now dm h = elim (Option-cases (GoMap.get dm.devices config.id)) [
    | inl e ↦ rw (e, Returns) (created-IsOn config now _ (create_device ops make config) h)
    | inr (d, e) ↦ rw (e, Returns) h
  ]

  connect_device-IsOn :
      (id : String) (dm : DeviceManager.DeviceManager C)
      → IsOn dm
      → IsOnIn (connect_device ops id dm)
  unfolding connect_device on_device
  connect_device-IsOn id dm h = ground arith

  abbrev Runs : Devices C → Type 0
  Runs m = IsOn m.hardware_mgr

  connected_as-Runs :
      (id : String) (d : Device) (now : ℕ) (m : Devices C)
      (r : DeviceManager.DeviceManager C × Option String)
      → IsOnIn r
      → Runs (connected_as ops new_client id d now m r)
  connected_as-Runs id d now m (hw, some e) h = h
  connected_as-Runs id d now m (hw, none) h = h

  wrapped_as-Runs :
      (id : String) (now : ℕ) (m : Devices C) (d : DeviceError ⊎ Device)
      → Runs m
      → Runs (wrapped_as ops new_client id now m d)
  wrapped_as-Runs id now m (inl e) h = h
  wrapped_as-Runs id now m (inr d) h =
      connected_as-Runs id d now m (connect_device ops id m.hardware_mgr)
        (connect_device-IsOn id m.hardware_mgr h)

  added_as-Runs :
      (id : String) (one : DeviceConfig) (now : ℕ) (m : Devices C)
      (r : DeviceManager.DeviceManager C × Option String)
      → IsOnIn r
      → Runs (added_as ops new_client id one now m r)
  added_as-Runs id one now m (hw, some e) h = h
  added_as-Runs id one now m (hw, none) h =
      wrapped_as-Runs id now (record m { hardware_mgr = hw }) (Device.create_device id one) h

  factory-IsOn :
      (now : ℕ) (dm : DeviceManager.DeviceManager C) (c : Created)
      → IsOn dm
      → Returns IsOnIn (Factory.added ops new_client now dm c)
  factory-IsOn now dm (inl e) h = h
  factory-IsOn now dm (inr (config, detail)) h = add_device-IsOn (new_client detail) config now dm h

  start_device-Runs :
      (id : String) (now : ℕ) (m : Devices C) (one : Option DeviceConfig)
      → Runs m
      → Returns Runs (start_device ops new_client id now m one)
  unfolding add_device_from_config
  start_device-Runs id now m none h = h
  start_device-Runs id now m (some one) h =
      and_then-Returns IsOnIn Runs
        (Factory.added ops new_client now m.hardware_mgr (create_device_config id one))
        (λ r. returns (added_as ops new_client id one now m r))
        (factory-IsOn now m.hardware_mgr (create_device_config id one) h)
        (added_as-Runs id one now m)

  start_devices-Runs :
      (ids : List String) (now : ℕ) (m : Devices C)
      → Runs m
      → Returns Runs (start_devices ops new_client ids now m)
  unfolding start_devices
  start_devices-Runs [] now m h = h
  start_devices-Runs (id ∷ ids) now m h =
      and_then-Returns Runs Runs (start_device ops new_client id now m (GoMap.get m.config id))
        (start_devices ops new_client ids now)
        (start_device-Runs id now m (GoMap.get m.config id) h) (start_devices-Runs ids now)

  stop_deadlocks : (later : ℕ) (m : Devices C) → Runs m → stop ops new_client later m ≡ deadlocks
  unfolding stop Factory.stop DeviceManager.stop
  stop_deadlocks later m h = rw h.0 refl

  -- Start of a new manager always returns, whatever is configured and however the devices answer, and
  -- after it Stop waits for ever.
  pub stop-start :
      (config : GoMap DeviceConfig) (order : List String) (now later : ℕ)
      → Returns
          (λ m. stop ops new_client later m ≡ deadlocks)
          (start ops new_client order now (new_devices ops new_client config))
  unfolding start new_devices Factory.start start_auto_scan new_device_manager
  stop-start config order now later =
      Returns_weaken Runs (λ m. stop ops new_client later m ≡ deadlocks) _ (stop_deadlocks later)
        (start_devices-Runs order now _ (refl, refl))

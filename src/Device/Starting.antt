-- ===== src/Device/Starting.antt =====
-- internal/device/device.go: what Start makes of the configured devices.
use go_control.Prelude.{
  ℕ, String, ◌≡◌, refl, Option, none, some, List, [], ◌∷◌, ◌⊎◌, inl, inr, str_eq, eq_iff,
  Option-cases, Bool-cases, subst,
}
use go_control.GoMap
use go_control.GoMap.{GoMap, get-put, get-empty}
use go_control.Outcome.{Outcome, returns, panics, deadlocks, Holds, and_then-Holds}
use go_control.Types.{DeviceConfig}
use go_control.DeviceManager
use go_control.DeviceManager.{
  start_auto_scan, new_device_manager, CommunicationInterface, connect_device, create_device,
}
use go_control.Factory.{add_device_from_config}
use go_control.Factory.Protocols.{ProtocolConfig, Created, create_device_config}
use go_control.Factory
use go_control.Device
use go_control.Device.{
  Device, hardware, Devices, connect, wrapped, connected_as, added_as, start_device, start_devices,
  start, new_devices,
}
use go_control.Device.Hardware.{new_hardware_device}

-- The device is one of the hardware, and the factory can make a configuration of what is configured for
-- its id.
abbrev pub IsBacked : String → Option DeviceConfig → Device → Type 0
IsBacked id (some config) (hardware d) =
    (c : DeviceManager.DeviceConfig × ProtocolConfig) × (create_device_config id config ≡ inr c)
IsBacked id _ _ = ⊥

sum_cases :
    (s : Created)
    → ((e : String) × (s ≡ inl e))
      ⊎ ((c : DeviceManager.DeviceConfig × ProtocolConfig) × (s ≡ inr c))
sum_cases (inl e) = inl (e, refl)
sum_cases (inr c) = inr (c, refl)

Holds-Unit : {A : Type 0} (o : Outcome A) → Holds (λ a. Unit {0}) o
Holds-Unit (returns a) = tt
Holds-Unit panics = tt
Holds-Unit deadlocks = tt

module _ {C : Type 0} (ops : CommunicationInterface C)
    (new_client : ProtocolConfig → DeviceManager.DeviceConfig → C) where
  module _ (config : GoMap DeviceConfig) where
    abbrev pub Fits : String → Option Device → Type 0
    Fits id none = Unit
    Fits id (some d) = IsBacked id (GoMap.get config id) d

    abbrev pub AreBacked : Devices C → Type 0
    AreBacked m = (m.config ≡ config) × ((id : String) → Fits id (GoMap.get m.devices id))

    put-Fits :
        (id k : String) (d : Device) (m : GoMap Device)
        → Fits id (some d)
        → Fits k (GoMap.get m k)
        → Fits k (GoMap.get (GoMap.put m id d) k)
    put-Fits id k d m b h = elim (Bool-cases (str_eq id k)) [
      | inl same ↦
          rw (get-put m id k d) (rw same (subst (λ j. Fits j (some d)) ((eq_iff id k).0 same) b))
      | inr other ↦ rw (get-put m id k d) (rw other h)
    ]

    connected_as-AreBacked :
        (id : String) (d : Device) (now : ℕ) (m : Devices C)
        (r : DeviceManager.DeviceManager C × Option String)
        → Fits id (some d)
        → Fits id (some (connect now d))
        → AreBacked m
        → AreBacked (connected_as ops new_client id d now m r)
    connected_as-AreBacked id d now m (hw, some e) b b' h =
        (h.0, λ k. put-Fits id k d m.devices b (h.1 k))
    connected_as-AreBacked id d now m (hw, none) b b' h =
        (h.0, λ k. put-Fits id k (connect now d) m.devices b' (h.1 k))

    added_as-AreBacked :
        (id : String) (one : DeviceConfig) (now : ℕ) (m : Devices C)
        (r : DeviceManager.DeviceManager C × Option String)
        (c : DeviceManager.DeviceConfig × ProtocolConfig)
        → GoMap.get config id ≡ some one
        → create_device_config id one ≡ inr c
        → AreBacked m
        → AreBacked (added_as ops new_client id one now m r)
    unfolding Device.create_device
    added_as-AreBacked id one now m (hw, some e) c configured made h = h
    added_as-AreBacked id one now m (hw, none) c configured made h =
        rw (made, wrapped)
          (connected_as-AreBacked id (hardware (new_hardware_device id one)) now
            (record m { hardware_mgr = hw }) (connect_device ops id hw) (rw configured (c, made))
            (rw configured (c, made)) h)

    start_device-AreBacked :
        (id : String) (now : ℕ) (m : Devices C)
        → AreBacked m
        → Holds AreBacked (start_device ops new_client id now m (GoMap.get m.config id))
    unfolding add_device_from_config
    start_device-AreBacked id now m h = elim (Option-cases (GoMap.get m.config id)) [
      | inl e ↦ rw (e, Holds) h
      | inr (one, e) ↦ elim (sum_cases (create_device_config id one)) [
        | inl (x, f) ↦ rw (e, Holds) (rw f h)
        | inr (c, f) ↦
            rw (e, Holds)
              (and_then-Holds (λ r. Unit {0}) AreBacked
                (add_device_from_config ops new_client id one now m.hardware_mgr)
                (λ r. returns (added_as ops new_client id one now m r))
                (Holds-Unit (add_device_from_config ops new_client id one now m.hardware_mgr))
                (λ r _.
                  added_as-AreBacked id one now m r c (subst (λ g. GoMap.get g id ≡ some one) h.0 e)
                    f h))
      ]
    ]

    start_devices-AreBacked :
        (ids : List String) (now : ℕ) (m : Devices C)
        → AreBacked m
        → Holds AreBacked (start_devices ops new_client ids now m)
    unfolding start_devices
    start_devices-AreBacked [] now m h = h
    start_devices-AreBacked (id ∷ ids) now m h =
        and_then-Holds AreBacked AreBacked
          (start_device ops new_client id now m (GoMap.get m.config id))
          (start_devices ops new_client ids now) (start_device-AreBacked id now m h)
          (start_devices-AreBacked ids now)

    -- Start never makes a mock or a Modbus device of this package: in whatever order it visits the
    -- configured devices, each device of the started manager is one of the hardware, under the id of a
    -- configured device whose protocol the factory knows. A device of another protocol is left out.
    pub start-AreBacked :
        (order : List String) (now : ℕ)
        → Holds AreBacked (start ops new_client order now (new_devices ops new_client config))
    unfolding start new_devices Factory.start start_auto_scan new_device_manager
    start-AreBacked order now =
        start_devices-AreBacked order now _ (refl, λ id. rw (get-empty {V = Device} id) tt)

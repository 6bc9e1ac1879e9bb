-- ===== src/DeviceManager/Consistency.antt =====
-- internal/hardware/devices/manager.go: the maps of devices and of configurations agree.
use go_control.Prelude.{
  ◌==◌, ℕ, String, ◌≡◌, refl, sym, ap, subst, ◌∙◌, Option, none, some, List, [], ◌∷◌, ◌⊎◌, inl, inr,
  str_eq, eq_iff, arith, Option-cases, Bool-cases, if_holds,
}
use go_control.GoMap
use go_control.GoMap.{GoMap, get-put, get-remove, get-map_values, apply}
use go_control.Channel.{Send, delivered, full, panicked, try_send}
use go_control.Outcome.{Outcome, returns, panics, deadlocks, Holds, and_then, and_then-Holds}
use go_control.Comm.{connecting}
use go_control.DeviceManager.{
  DeviceType, Settings, modbus_settings, serial_settings, custom_settings, modbus_tcp, modbus_rtu,
  modbus_ascii, serial_port, custom_protocol, unknown, as_modbus, as_serial, as_custom, of_type,
  sent, DeviceConfig, CommunicationInterface, BaseDevice, DeviceEvent, DeviceManager, Result,
  new_base_device, connected_as, connect, disconnect, reconnect, write, add_event_handler,
  set_communication, create_device, new_modbus_device, new_serial_device, new_custom_device,
  emit_event, emitting, added, add_device, remove_device, on_device, connect_device,
  disconnect_device, reconnect_device, write_device, start_auto_scan, stop_auto_scan,
  disconnected_if, stop,
}

module _ {C : Type 0} (ops : CommunicationInterface C) (new_client : DeviceConfig → C) where
  -- The device that stands under an id has this id, and the stored configuration.
  abbrev pub Matches : String → Option (BaseDevice C) → Option DeviceConfig → Type 0
  Matches id none o = Unit
  Matches id (some d) o = (o ≡ some d.config) × (d.config.id ≡ id)

  abbrev pub IsConsistent : DeviceManager C → Type 0
  IsConsistent dm = (id : String) → Matches id (GoMap.get dm.devices id) (GoMap.get dm.configs id)

  -- A call of an operation that changes the manager.
  pub data Call : Type 0 where
    adds : DeviceConfig → ℕ → Call
    removes : String → ℕ → Call
    connects disconnects reconnects : String → Call
    writes : String → String → List ℕ → Call
    scans : ℕ → Call
    stops_scan stops : Call

  abbrev pub state_of : DeviceManager C × Option String → Outcome (DeviceManager C)
  state_of r = returns r.0

  unfoldable pub call : Call → DeviceManager C → Outcome (DeviceManager C)
  call (adds config now) dm = and_then (add_device ops new_client config now dm) state_of
  call (removes id now) dm = and_then (remove_device ops id now dm) state_of
  call (connects id) dm = state_of (connect_device ops id dm)
  call (disconnects id) dm = state_of (disconnect_device ops id dm)
  call (reconnects id) dm = state_of (reconnect_device ops id dm)
  call (writes id address bytes) dm = state_of (write_device ops id address bytes dm)
  call (scans interval) dm = start_auto_scan ops interval dm
  call stops_scan dm = returns (stop_auto_scan ops dm)
  call stops dm = stop ops dm

  unfoldable pub run : List Call → DeviceManager C → Outcome (DeviceManager C)
  run [] dm = returns dm
  run (c ∷ cs) dm = and_then (call c dm) (run cs)

  abbrev Kept : Result ops → Type 0
  Kept = Holds (λ r. IsConsistent r.0)

  emitting-IsConsistent :
      (e : DeviceEvent) (dm : DeviceManager C) → IsConsistent dm → Kept (emitting ops e dm)
  unfolding emit_event
  emitting-IsConsistent e dm h = go (try_send dm.event_chan e)
    where
      go : (s : Send DeviceEvent) → Kept (and_then (sent ops dm s) (λ after. returns (after, none)))
      go (delivered c) = h
      go full = h
      go panicked = tt

  put-IsConsistent :
      (dm : DeviceManager C) (id : String) (d e : BaseDevice C)
      → IsConsistent dm
      → GoMap.get dm.devices id ≡ some d
      → e.config ≡ d.config
      → IsConsistent (record dm { devices = GoMap.put dm.devices id e })
  put-IsConsistent dm id d e h at same j = elim (Bool-cases (str_eq id j)) [
    | inl b ↦
        let was : Matches id (some d) (GoMap.get dm.configs id) =
          subst (λ (o : Option (BaseDevice C)). Matches id o (GoMap.get dm.configs id)) at (h id) in
        let now_ : Matches id (some e) (GoMap.get dm.configs id) =
          (was.0 ∙ ap some (sym same), ap (λ (c : DeviceConfig). c.id) same ∙ was.1) in
        let same_id : id ≡ j = ground (arith, b, eq_iff id j) in
        rw (get-put dm.devices id j e, b)
          (subst (λ (x : String). Matches x (some e) (GoMap.get dm.configs x)) same_id now_)
    | inr b ↦ rw (get-put dm.devices id j e, b) (h j)
  ]

  abbrev IsConfigured : DeviceConfig → String ⊎ BaseDevice C → Type 0
  IsConfigured config (inl e) = Unit
  IsConfigured config (inr d) = d.config ≡ config

  modbus_lem :
      (config : DeviceConfig) (x : Settings)
      → IsConfigured config (as_modbus ops new_client config x)
  unfolding set_communication new_base_device
  modbus_lem config modbus_settings = refl
  modbus_lem config _ = tt

  serial_lem :
      (config : DeviceConfig) (x : Settings)
      → IsConfigured config (as_serial ops new_client config x)
  unfolding set_communication new_base_device
  serial_lem config serial_settings = refl
  serial_lem config _ = tt

  custom_lem :
      (config : DeviceConfig) (x : Settings)
      → IsConfigured config (as_custom ops new_client config x)
  unfolding set_communication new_base_device
  custom_lem config custom_settings = refl
  custom_lem config _ = tt

  created-IsConfigured :
      (config : DeviceConfig) (k : DeviceType)
      → IsConfigured config (of_type ops new_client config k)
  unfolding new_modbus_device new_serial_device new_custom_device
  created-IsConfigured config modbus_tcp = modbus_lem config config.settings
  created-IsConfigured config modbus_rtu = modbus_lem config config.settings
  created-IsConfigured config modbus_ascii = modbus_lem config config.settings
  created-IsConfigured config serial_port = serial_lem config config.settings
  created-IsConfigured config custom_protocol = custom_lem config config.settings
  created-IsConfigured config unknown = tt

  added-IsConsistent :
      (config : DeviceConfig) (now : ℕ) (dm : DeviceManager C) (r : String ⊎ BaseDevice C)
      → IsConsistent dm
      → GoMap.get dm.devices config.id ≡ none
      → IsConfigured config r
      → Kept
          (added ops config now (record dm { configs = GoMap.put dm.configs config.id config }) r)
  unfolding add_event_handler
  added-IsConsistent config now dm (inl e) h absent c = λ j.
      elim (Bool-cases (str_eq config.id j)) [
        | inl b ↦
            let same_id : config.id ≡ j = ground (arith, b, eq_iff config.id j) in
            let gone : GoMap.get dm.devices j ≡ none =
              subst (λ (x : String). GoMap.get dm.devices x ≡ none) same_id absent in
            rw gone tt
        | inr b ↦ rw (get-put dm.configs config.id j config, b) (h j)
      ]
  added-IsConsistent config now dm (inr d) h absent c = emitting-IsConsistent _ _ λ j.
      elim (Bool-cases (str_eq config.id j)) [
        | inl b ↦
            let same_id : config.id ≡ j = ground (arith, b, eq_iff config.id j) in
            rw
              (
                get-put dm.devices config.id j (add_event_handler ops 0 d),
                get-put dm.configs config.id j config,
                b,
              )
              (ap some (sym c), ap (λ (x : DeviceConfig). x.id) c ∙ same_id)
        | inr b ↦
            rw
              (
                get-put dm.devices config.id j (add_event_handler ops 0 d),
                get-put dm.configs config.id j config,
                b,
              )
              (h j)
      ]

  add-IsConsistent :
      (config : DeviceConfig) (now : ℕ) (dm : DeviceManager C)
      → IsConsistent dm
      → Kept (add_device ops new_client config now dm)
  unfolding add_device create_device
  add-IsConsistent config now dm h = elim (Option-cases (GoMap.get dm.devices config.id)) [
    | inl e ↦
        rw (e, add_device)
          (added-IsConsistent config now dm _ h e (created-IsConfigured config config.kind))
    | inr (d, e) ↦ rw (e, add_device) h
  ]

  remove-IsConsistent :
      (id : String) (now : ℕ) (dm : DeviceManager C)
      → IsConsistent dm
      → Kept (remove_device ops id now dm)
  unfolding remove_device
  remove-IsConsistent id now dm h = elim (Option-cases (GoMap.get dm.devices id)) [
    | inl e ↦ rw (e, remove_device) h
    | inr (d, e) ↦
        rw (e, remove_device)
          (emitting-IsConsistent _ _ λ j. elim (Bool-cases (str_eq id j)) [
            | inl b ↦ rw (get-remove dm.devices id j, b) tt
            | inr b ↦ rw (get-remove dm.devices id j, get-remove dm.configs id j, b) (h j)
          ])
  ]

  on_device-IsConsistent :
      (id : String) (f : BaseDevice C → BaseDevice C × Option String) (dm : DeviceManager C)
      → ((d : BaseDevice C) → (f d).0.config ≡ d.config)
      → IsConsistent dm
      → IsConsistent (on_device ops id f dm).0
  unfolding on_device
  on_device-IsConsistent id f dm same h = elim (Option-cases (GoMap.get dm.devices id)) [
    | inl e ↦ rw (e, on_device) h
    | inr (d, e) ↦ rw (e, on_device) (put-IsConsistent dm id d (f d).0 h e (same d))
  ]

  connected_as-config :
      (d : BaseDevice C) (r : C × Option String) → (connected_as ops d r).0.config ≡ d.config
  connected_as-config d (c, none) = refl
  connected_as-config d (c, some e) = refl

  connect-config : (d : BaseDevice C) → (connect ops d).0.config ≡ d.config
  unfolding connect
  connect-config d = elim (Option-cases d.comm) [
    | inl e ↦ ground (arith, e)
    | inr (c, e) ↦
        rw (e, connect) (connected_as-config (record d { status = connecting }) (ops.connect c))
  ]

  reconnect-config : (d : BaseDevice C) → (reconnect ops d).0.config ≡ d.config
  unfolding reconnect
  reconnect-config d = elim (Option-cases d.comm) [
    | inl e ↦ ground (arith, e)
    | inr (c, e) ↦ rw (e, reconnect) (connected_as-config d (ops.reconnect c))
  ]

  disconnect-config : (d : BaseDevice C) → (disconnect ops d).0.config ≡ d.config
  unfolding disconnect
  disconnect-config d = ground arith

  write-config :
      (address : String) (bytes : List ℕ) (d : BaseDevice C)
      → (write ops address bytes d).0.config ≡ d.config
  unfolding write
  write-config address bytes d = ground arith

  disconnected_if-config : (d : BaseDevice C) → (disconnected_if ops d).config ≡ d.config
  disconnected_if-config d = ground (arith, disconnect-config d)

  apply-Matches :
      (id : String) (o : Option (BaseDevice C)) (c : Option DeviceConfig)
      → Matches id o c
      → Matches id (apply (disconnected_if ops) o) c
  apply-Matches id none c h = tt
  apply-Matches id (some d) c h = (
    h.0 ∙ ap some (sym (disconnected_if-config d)),
    ap (λ (x : DeviceConfig). x.id) (disconnected_if-config d) ∙ h.1,
  )

  state_lem : (r : Result ops) → Kept r → Holds IsConsistent (and_then r state_of)
  state_lem (returns (dm, e)) h = h
  state_lem panics h = tt
  state_lem deadlocks h = tt

  call-IsConsistent :
      (c : Call) (dm : DeviceManager C) → IsConsistent dm → Holds IsConsistent (call c dm)
  unfolding call connect_device disconnect_device reconnect_device write_device start_auto_scan
      stop_auto_scan stop
  call-IsConsistent (adds config now) dm h = state_lem _ (add-IsConsistent config now dm h)
  call-IsConsistent (removes id now) dm h = state_lem _ (remove-IsConsistent id now dm h)
  call-IsConsistent (connects id) dm h = on_device-IsConsistent id _ dm connect-config h
  call-IsConsistent (disconnects id) dm h = on_device-IsConsistent id _ dm disconnect-config h
  call-IsConsistent (reconnects id) dm h = on_device-IsConsistent id _ dm reconnect-config h
  call-IsConsistent (writes id address bytes) dm h =
      on_device-IsConsistent id _ dm (write-config address bytes) h
  call-IsConsistent (scans interval) dm h =
      if_holds (Holds IsConsistent) dm.auto_scan h
        (if_holds (Holds IsConsistent) (interval == 0) tt h)
  call-IsConsistent stops_scan dm h = h
  call-IsConsistent stops dm h = if_holds (Holds IsConsistent) dm.auto_scan tt (
      if_holds (Holds IsConsistent) dm.event_chan.closed tt λ id.
        rw (get-map_values (disconnected_if ops) dm.devices id)
          (apply-Matches id (GoMap.get dm.devices id) (GoMap.get dm.configs id) (h id)))

  -- In whatever order the operations of the manager are called, every device stands under the id of its
  -- configuration, and this configuration is the one that is stored for the id.
  pub run-IsConsistent :
      (cs : List Call) (dm : DeviceManager C) → IsConsistent dm → Holds IsConsistent (run cs dm)
  unfolding run
  run-IsConsistent [] dm h = h
  run-IsConsistent (c ∷ cs) dm h =
      and_then-Holds IsConsistent IsConsistent (call c dm) (run cs) (call-IsConsistent c dm h)
        (λ after k. run-IsConsistent cs after k)

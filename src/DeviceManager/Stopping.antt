-- ===== src/DeviceManager/Stopping.antt =====
-- internal/hardware/devices/manager.go: Stop, and what AddDevice leaves behind when it fails.
use go_control.Prelude.{
  if_cases, if_holds, ◌==◌, ℕ, String, ◌≡◌, refl, none, some, inl, arith, eq_iff,
}
use go_control.GoMap
use go_control.GoMap.{get-put}
use go_control.Outcome.{returns, deadlocks, Holds}
use go_control.DeviceManager.{
  DeviceConfig, CommunicationInterface, DeviceManager, start_auto_scan, stop, add_device,
  create_device,
}

module _ {C : Type 0} (ops : CommunicationInterface C) where
  -- Once automatic scanning has been started, Stop waits for ever for the lock that it holds itself,
  -- whatever the devices are.
  stop-start_auto_scan :
      (interval : ℕ) (dm : DeviceManager C)
      → Holds (λ r. stop ops r ≡ deadlocks) (start_auto_scan ops interval dm)
  unfolding stop start_auto_scan
  stop-start_auto_scan interval dm =
      if_cases (Holds (λ r. stop ops r ≡ deadlocks)) dm.auto_scan (λ on. rw on refl)
        (λ off.
          if_holds (Holds (λ (r : DeviceManager C). stop ops r ≡ deadlocks)) (interval == 0) tt
            refl)

  -- An AddDevice that fails because the device cannot be created leaves the devices as they were, but
  -- replaces the configuration that is stored for the id.
  pub add_device_failed :
      (new_client : DeviceConfig → C) (config : DeviceConfig) (now : ℕ) (dm : DeviceManager C)
      (e : String)
      → GoMap.get dm.devices config.id ≡ none
      → create_device ops new_client config ≡ inl e
      → (r : DeviceManager C) × (add_device ops new_client config now dm ≡ returns (r, some e))
        × (r.devices ≡ dm.devices)
        × (GoMap.get r.configs config.id ≡ some config)
  unfolding add_device
  add_device_failed new_client config now dm e h f = (
    record dm { configs = GoMap.put dm.configs config.id config },
    rw (h, add_device) (rw f refl),
    refl,
    ground (arith, get-put dm.configs config.id config.id config, eq_iff config.id config.id),
  )

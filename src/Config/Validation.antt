-- ===== src/Config/Validation.antt =====
-- internal/config/manager.go: what validateConfig accepts, and what it makes of it.
use go_control.Prelude.{
  String, ◌≡◌, ◌≢◌, ◌↔◌, refl, Bool, true, false, Option, none, some, List, [], ◌∷◌, arith, str_eq,
  eq_iff, is_some, member, Bool-cases, inl, inr, ◌==◌, ==_iff, subst,
}
use go_control.GoMap
use go_control.GoMap.{GoMap}
use go_control.Types.{Float64, DeviceConfig, AxisConfig}
use go_control.Nodes.{ℤ}
use go_control.Decomposer.{zero_float}
use go_control.Config.Records.{SystemConfig}
use go_control.Config.Checking.{check_config, validate_config}
use go_control.Config.Checking.{
  ConfigError, is_positive, or_default, or_empty, or_else, error_of, defaulted, check_device,
  check_each, Environment, check_axis,
}

-- An order of `range` visits every key.
abbrev pub Visits {ℓ} : {V : Type ℓ} → (GoMap V → List String) → Type ℓ
Visits {V = V} order =
    (m : GoMap V) (k : String) (v : V) → GoMap.get m k ≡ some v → member k (order m) ≡ true

abbrev pub IsComplete : DeviceConfig → Type 0
IsComplete d = (d.kind ≢ "") × (d.protocol ≢ "") × (d.endpoint ≢ "")

pub check_device_iff : (id : String) (d : DeviceConfig) → (check_device id d ≡ none) ↔ IsComplete d
unfolding check_device
check_device_iff id d = ground (arith, eq_iff d.kind "", eq_iff d.protocol "", eq_iff d.endpoint "")

or_else_iff : (x y : Option ConfigError) → (or_else x y ≡ none) ↔ ((x ≡ none) × (y ≡ none))
or_else_iff none y = ((λ h. (refl, h)), (λ h. h.1))
or_else_iff (some e) y = ((λ h. cc), (λ h. h.0))

module _ {ℓ} {V : Type ℓ} (check : String → V → Option ConfigError) (m : GoMap V) where
  abbrev PassesAt : String → Type ℓ
  PassesAt k = (v : V) → GoMap.get m k ≡ some v → check k v ≡ none

  -- Every entry whose key is in the list passes the check.
  abbrev Passes : List String → Type ℓ
  Passes ks = (k : String) → member k ks ≡ true → PassesAt k

  error_of_iff :
      (k : String) (o : Option V)
      → (error_of check k o ≡ none) ↔ ((v : V) → o ≡ some v → check k v ≡ none)
  error_of_iff k none = ((λ h v e. cc), (λ h. refl))
  error_of_iff k (some w) = ((λ h v e. cc), (λ h. h w refl))

  -- One round of the loop.
  check_step :
      (j : String) (ks : List String)
      → (check_each check m (j ∷ ks) ≡ none) ↔ (PassesAt j × (check_each check m ks ≡ none))
  unfolding check_each
  check_step j ks =
      let both = or_else_iff (error_of check j (GoMap.get m j)) (check_each check m ks) in
      let one = error_of_iff j (GoMap.get m j) in
      ((λ h. (one.0 (both.0 h).0, (both.0 h).1)), (λ h. both.1 (one.1 h.0, h.1)))

  Passes-cons : (j : String) (ks : List String) → Passes (j ∷ ks) ↔ (PassesAt j × Passes ks)
  Passes-cons j ks = (
    (λ h. (h j (ground (arith, eq_iff j j)), λ k e. h k (ground arith))),
    (λ h k e. elim (Bool-cases (str_eq j k)) [
      | inl same ↦ subst PassesAt ((eq_iff j k).0 same) h.0
      | inr other ↦ h.1 k (ground arith)
    ]),
  )

  pub check_each_iff : (ks : List String) → (check_each check m ks ≡ none) ↔ Passes ks
  check_each_iff [] = ((λ h k e. cc), (λ h. unfold check_each in refl))
  check_each_iff (j ∷ ks) =
      let step = check_step j ks in
      let parts = Passes-cons j ks in
      let rest = check_each_iff ks in
      (
        (λ h. parts.1 ((step.0 h).0, rest.0 (step.0 h).1)),
        (λ h. step.1 ((parts.0 h).0, rest.1 (parts.0 h).1)),
      )

  -- In an order that visits every key, the loop passes exactly if every entry does.
  pub check_each_all :
      (order : GoMap V → List String)
      → Visits order
      → (check_each check m (order m) ≡ none) ↔ ((k : String) → PassesAt k)
  check_each_all order visits = (
    (λ h k v e. (check_each_iff (order m)).0 h k (visits m k v e) v e),
    (λ h. (check_each_iff (order m)).1 (λ k e. h k)),
  )

abbrev pub IsNormal : SystemConfig → Type 0
IsNormal c =
    (is_positive c.event_loop_interval ≡ true)
    × (is_positive c.queue_size ≡ true)
    × (is_positive c.ipc.buffer_size ≡ true)
    × (is_positive c.ipc.timeout ≡ true)
    × (is_some c.task_templates ≡ true)
    × (is_some c.command_mappings ≡ true)

or_default_positive : (x d : ℤ) → is_positive d ≡ true → is_positive (or_default x d) ≡ true
or_default_positive x d h = elim (Bool-cases (is_positive x)) [
  | inl e ↦ rw (e, or_default) e
  | inr e ↦ rw (e, or_default) h
]

or_empty-is_some : {V : Type 0} (o : Option (GoMap V)) → is_some (or_empty o) ≡ true
or_empty-is_some none = refl
or_empty-is_some (some m) = refl

pub defaulted-IsNormal : (c : SystemConfig) → IsNormal (defaulted c)
unfolding defaulted
defaulted-IsNormal c = (
  or_default_positive c.event_loop_interval _ refl,
  or_default_positive c.queue_size _ refl,
  or_default_positive c.ipc.buffer_size _ refl,
  or_default_positive c.ipc.timeout _ refl,
  or_empty-is_some c.task_templates,
  or_empty-is_some c.command_mappings,
)

module _ (le : Float64 → Float64 → Bool) where
  abbrev pub IsUsable : AxisConfig → Type 0
  IsUsable a =
      (a.device_id ≢ "")
      × (le a.max_velocity zero_float ≡ false)
      × (le a.max_acceleration zero_float ≡ false)
      × (le a.max_position a.min_position ≡ false)

  -- There is a device, every device is complete, and every axis usable.
  abbrev pub IsValid : SystemConfig → Type 0
  IsValid c =
      (GoMap.size c.devices ≢ 0)
      × ((k : String) (d : DeviceConfig) → GoMap.get c.devices k ≡ some d → IsComplete d)
      × ((k : String) (a : AxisConfig) → GoMap.get c.axes k ≡ some a → IsUsable a)

  check_axis_iff : (id : String) (a : AxisConfig) → (check_axis le id a ≡ none) ↔ IsUsable a
  unfolding check_axis
  check_axis_iff id a = ground (arith, eq_iff a.device_id "")

module _ (env : Environment) (devices_visited : Visits env.device_order)
    (axes_visited : Visits env.axis_order) where
  open env use {le, device_order, axis_order}

  check_config_iff : (c : SystemConfig) → (check_config env c ≡ none) ↔ IsValid le c
  unfolding check_config
  check_config_iff c =
      let devices = check_each_all check_device c.devices device_order devices_visited in
      let axes = check_each_all (check_axis le) c.axes axis_order axes_visited in
      let loops =
        or_else_iff (check_each check_device c.devices (device_order c.devices))
          (check_each (check_axis le) c.axes (axis_order c.axes)) in
      elim (Bool-cases (GoMap.size c.devices == 0)) [
        | inl e ↦ rw e ((λ h. cc), (λ h. absurd (h.0 ((==_iff _ _).0 e))))
        | inr e ↦ rw e (
          (λ h. (
            (λ z. cc ((==_iff (GoMap.size c.devices) 0).1 z, e)),
            (λ k d g. (check_device_iff k d).0 (devices.0 (loops.0 h).0 k d g)),
            (λ k a g. (check_axis_iff le k a).0 (axes.0 (loops.0 h).1 k a g)),
          )),
          (λ h. loops.1 (
            devices.1 (λ k d g. (check_device_iff k d).1 (h.1 k d g)),
            axes.1 (λ k a g. (check_axis_iff le k a).1 (h.2 k a g)),
          )),
        )
      ]

  -- validateConfig accepts a configuration exactly if it has a device, every device has a type, a
  -- protocol and an endpoint, and every axis has a device, limits that are not `<= 0`, and a maximal
  -- position that is not `<=` the minimal one, in whatever orders the maps are visited, provided that
  -- these visit every entry. What it leaves behind the pointer has the same devices and axes, positive
  -- intervals and sizes, and maps of templates and mappings that are not nil.
  pub validate_config-IsValid :
      (c : SystemConfig)
      → (((validate_config env c).1 ≡ none) ↔ IsValid le c)
        × IsNormal (validate_config env c).0
        × ((validate_config env c).0.devices ≡ c.devices)
        × ((validate_config env c).0.axes ≡ c.axes)
  unfolding validate_config
  validate_config-IsValid c = (
    unfold defaulted in check_config_iff (defaulted c),
    defaulted-IsNormal c,
    unfold defaulted in refl,
    unfold defaulted in refl,
  )

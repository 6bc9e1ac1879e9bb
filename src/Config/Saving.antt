-- ===== src/Config/Saving.antt =====
-- internal/config/manager.go: the calls that change the configuration and save it.
use go_control.Prelude.{
  ℕ, String, ◌≡◌, ◌≢◌, refl, Bool, true, false, Option, none, some, List, ◌⊎◌, inl, inr, arith,
  Option-cases, is_some, not, ◌&&◌,
}
use go_control.GoMap
use go_control.GoMap.{GoMap}
use go_control.Outcome.{deadlocks, Holds, and_then-Holds}
use go_control.Types.{DeviceConfig, AxisConfig}
use go_control.Config.Records.{SystemConfig, TaskTemplate}
use go_control.Config.{
  ConfigManager, Result, free, writing, set_config, update_device_config, update_axis_config,
  add_task_template, update_task_template, remove_task_template, create_default_config,
  import_config, load_config, get_config, notify_watchers, template_of, stored, validated, imported,
  import_result, with_template,
}
use go_control.Config.Checking.{validate_config}
use go_control.Config.Checking.{ConfigError, Environment}

-- The calls that write a configuration to the manager's file.
pub data Change : Type 0 where
  sets : SystemConfig → Change
  updates_device : String → DeviceConfig → Change
  updates_axis : String → AxisConfig → Change
  adds_template updates_template : String → TaskTemplate → Change
  removes_template : String → Change
  creates_default : Change
  imports : String → Change

abbrev pub has_template : SystemConfig → String → Bool
has_template c name = is_some (template_of c.task_templates name)

-- The change is of one entry, which is there, or which can be added.
abbrev pub edits : Change → SystemConfig → Bool
edits (updates_device id d) c = GoMap.has c.devices id
edits (updates_axis id a) c = GoMap.has c.axes id
edits (adds_template name t) c = is_some c.task_templates && not (has_template c name)
edits (updates_template name t) c = has_template c name
edits (removes_template name) c = has_template c name
edits _ c = false

abbrev Fails : ConfigManager × Option ConfigError → Type 0
Fails r = r.1 ≢ none

module _ (env : Environment) where
  unfoldable pub apply : Change → ℕ → Option String → ConfigManager → Result
  apply (sets c) now denied cm = set_config env free c now denied cm
  apply (updates_device id d) now denied cm = update_device_config env id d now denied cm
  apply (updates_axis id a) now denied cm = update_axis_config env id a now denied cm
  apply (adds_template name t) now denied cm = add_task_template env name t now denied cm
  apply (updates_template name t) now denied cm = update_task_template env name t now denied cm
  apply (removes_template name) now denied cm = remove_task_template env name now denied cm
  apply creates_default now denied cm = create_default_config env now denied cm
  apply (imports path) now denied cm = import_config env path now denied cm

  stored-Fails :
      (c : SystemConfig) (now : ℕ) (denied : Option String) (cm : ConfigManager)
      (bytes : String ⊎ List ℕ)
      → Holds Fails (stored env c now denied cm bytes)
  unfolding notify_watchers get_config
  stored-Fails c now denied cm (inl e) = λ h. cc
  stored-Fails c now (some e) cm (inr bytes) = λ h. cc
  stored-Fails c now none cm (inr bytes) = tt

  validated-Fails :
      (now : ℕ) (denied : Option String) (cm : ConfigManager)
      (v : SystemConfig × Option ConfigError)
      → Holds Fails (validated env now denied cm v)
  validated-Fails now denied cm (c, some e) = λ h. cc
  validated-Fails now denied cm (c, none) = stored-Fails c now denied cm (env.marshal c)

  set_config-Fails :
      (c : SystemConfig) (now : ℕ) (denied : Option String) (cm : ConfigManager)
      → Holds Fails (set_config env free c now denied cm)
  unfolding set_config
  set_config-Fails c now denied cm = validated-Fails now denied cm (validate_config env c)

  import_result-Fails :
      (r : ConfigManager × Option ConfigError) → Fails r → Holds Fails (import_result r)
  import_result-Fails (cm, some e) h = λ k. cc
  import_result-Fails (cm, none) h = h

  imported-Fails :
      (now : ℕ) (denied : Option String) (r : ConfigManager × Option ConfigError)
      → Holds Fails (imported env now denied r)
  unfolding get_config
  imported-Fails now denied (cm, some e) = λ h. cc
  imported-Fails now denied (cm, none) =
      and_then-Holds Fails Fails (set_config env free cm.config now denied cm) import_result
        (set_config-Fails cm.config now denied cm) import_result-Fails

  -- What is done with the lock held for writing never returns.
  held :
      (c : SystemConfig) (now : ℕ) (denied : Option String) (cm : ConfigManager)
      → set_config env writing c now denied cm ≡ deadlocks
  unfolding set_config
  held c now denied cm = refl

  template_of-some :
      (name : String) (m : Option (GoMap TaskTemplate)) {t : TaskTemplate}
      → template_of m name ≡ some t
      → is_some m ≡ true
  template_of-some name none h = cc
  template_of-some name (some m) h = refl

  with_template_some :
      (name : String) (t : TaskTemplate) (now : ℕ) (denied : Option String) (cm : ConfigManager)
      → is_some cm.config.task_templates ≡ true
      → with_template env name t now denied cm ≡ deadlocks
  with_template_some name t now denied cm h = elim (Option-cases cm.config.task_templates) [
    | inl e ↦ cc
    | inr (m, e) ↦ rw e (held _ now denied _)
  ]

  -- A change of one entry that returns has changed nothing, and returns an error.
  module _ (P : ConfigManager × Option ConfigError → Type 0) (now : ℕ) (denied : Option String)
      (cm : ConfigManager) (failed : (e : ConfigError) → P (cm, some e)) where
    with_template-Holds :
        (name : String) (t : TaskTemplate) → Holds P (with_template env name t now denied cm)
    unfolding set_config
    with_template-Holds name t = elim (Option-cases cm.config.task_templates) [
      | inl e ↦ rw e tt
      | inr (m, e) ↦ rw e tt
    ]

    pub update_device-Holds :
        (id : String) (d : DeviceConfig) → Holds P (apply (updates_device id d) now denied cm)
    unfolding apply update_device_config set_config
    update_device-Holds id d = elim (Option-cases (GoMap.get cm.config.devices id)) [
      | inl e ↦ rw (e, Holds) (failed _)
      | inr (old, e) ↦ rw (e, Holds) tt
    ]

    pub update_axis-Holds :
        (id : String) (a : AxisConfig) → Holds P (apply (updates_axis id a) now denied cm)
    unfolding apply update_axis_config set_config
    update_axis-Holds id a = elim (Option-cases (GoMap.get cm.config.axes id)) [
      | inl e ↦ rw (e, Holds) (failed _)
      | inr (old, e) ↦ rw (e, Holds) tt
    ]

    pub add_template-Holds :
        (name : String) (t : TaskTemplate) → Holds P (apply (adds_template name t) now denied cm)
    unfolding apply add_task_template
    add_template-Holds name t = elim (Option-cases (template_of cm.config.task_templates name)) [
      | inl e ↦ rw (e, Holds) (with_template-Holds name t)
      | inr (old, e) ↦ rw (e, Holds) (failed _)
    ]

    pub update_template-Holds :
        (name : String) (t : TaskTemplate) → Holds P (apply (updates_template name t) now denied cm)
    unfolding apply update_task_template
    update_template-Holds name t = elim (Option-cases (template_of cm.config.task_templates name)) [
      | inl e ↦ rw (e, Holds) (failed _)
      | inr (old, e) ↦ rw (e, Holds) (with_template-Holds name t)
    ]

    pub remove_template-Holds :
        (name : String) → Holds P (apply (removes_template name) now denied cm)
    unfolding apply remove_task_template set_config
    remove_template-Holds name = elim (Option-cases (template_of cm.config.task_templates name)) [
      | inl e ↦ rw (e, Holds) (failed _)
      | inr (old, e) ↦ rw (e, Holds) tt
    ]

  -- SetConfig, UpdateDeviceConfig, UpdateAxisConfig, AddTaskTemplate, UpdateTaskTemplate,
  -- RemoveTaskTemplate, CreateDefaultConfig and ImportConfig, the calls that write a configuration to the
  -- manager's file, never return success: each returns an error, panics, or waits for ever for a lock that
  -- it holds itself. LoadConfig and Reload, which only read the file, are not among them.
  pub apply_fails :
      (change : Change) (now : ℕ) (denied : Option String) (cm : ConfigManager)
      → Holds (λ r. r.1 ≢ none) (apply change now denied cm)
  apply_fails (sets c) now denied cm = unfold apply in set_config-Fails c now denied cm
  apply_fails (updates_device id d) now denied cm =
      update_device-Holds Fails now denied cm (λ e h. cc) id d
  apply_fails (updates_axis id a) now denied cm =
      update_axis-Holds Fails now denied cm (λ e h. cc) id a
  apply_fails (adds_template name t) now denied cm =
      add_template-Holds Fails now denied cm (λ e h. cc) name t
  apply_fails (updates_template name t) now denied cm =
      update_template-Holds Fails now denied cm (λ e h. cc) name t
  apply_fails (removes_template name) now denied cm =
      remove_template-Holds Fails now denied cm (λ e h. cc) name
  apply_fails creates_default now denied cm =
      unfold apply create_default_config in set_config-Fails _ now denied cm
  apply_fails (imports path) now denied cm =
      unfold apply import_config in imported-Fails now denied (load_config env path now cm)

  -- A change of an entry that is there, and the addition of a template that is not, wait for ever,
  -- whatever the new value is.
  pub apply_deadlocks :
      (change : Change) (now : ℕ) (denied : Option String) (cm : ConfigManager)
      → edits change cm.config ≡ true
      → apply change now denied cm ≡ deadlocks
  unfolding apply update_device_config update_axis_config add_task_template update_task_template
      remove_task_template
  apply_deadlocks (updates_device id d) now denied cm h =
      elim (Option-cases (GoMap.get cm.config.devices id)) [
        | inl e ↦ cc
        | inr (old, e) ↦ rw (e, apply, update_device_config) (held _ now denied _)
      ]
  apply_deadlocks (updates_axis id a) now denied cm h =
      elim (Option-cases (GoMap.get cm.config.axes id)) [
        | inl e ↦ cc
        | inr (old, e) ↦ rw (e, apply, update_axis_config) (held _ now denied _)
      ]
  apply_deadlocks (adds_template name t) now denied cm h =
      elim (Option-cases (template_of cm.config.task_templates name)) [
        | inl e ↦
            rw (e, apply, add_task_template)
              (with_template_some name t now denied cm (ground arith))
        | inr (old, e) ↦ absurd (ground arith)
      ]
  apply_deadlocks (updates_template name t) now denied cm h =
      elim (Option-cases (template_of cm.config.task_templates name)) [
        | inl e ↦ cc
        | inr (old, e) ↦
            rw (e, apply, update_task_template)
              (with_template_some name t now denied cm (template_of-some name _ e))
      ]
  apply_deadlocks (removes_template name) now denied cm h =
      elim (Option-cases (template_of cm.config.task_templates name)) [
        | inl e ↦ cc
        | inr (old, e) ↦ rw (e, apply, remove_task_template) (held _ now denied _)
      ]
  apply_deadlocks _ now denied cm h = cc

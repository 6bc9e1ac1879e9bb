-- ===== src/Config.antt =====
-- internal/config/manager.go: the configuration manager. `files` holds the bytes of the files; `denied`
-- is the error of os.WriteFile. A watcher is a number, and `notified` records the goroutines that call
-- one. A `Lock` is what the calling goroutine holds of `configLock`: a goroutine that asks for the lock
-- that it holds for writing waits for ever.
pub mod Records
pub mod Defaults
pub mod Checking
pub mod Validation
pub mod Saving
pub mod Loading
pub mod RoundTrip
mod Examples
use go_control.Prelude.{
  ℕ, String, Bool, true, false, not, Option, none, some, List, [], ◌∷◌, ◌++◌, ◌⊎◌, inl, inr, str_eq,
  ltb, map, if◌then◌else◌,
}
use go_control.GoMap
use go_control.GoMap.{GoMap}
use go_control.Outcome.{Outcome, returns, panics, deadlocks, and_then}
use go_control.Types.{DeviceConfig, AxisConfig}
use go_control.Config.Records.{SystemConfig, TaskTemplate}
use go_control.Config.Defaults.{default_config, empty_config}
use go_control.Config.Checking.{
  validate_config, ConfigError, Environment, already_running, axis_not_found, device_not_found,
  import_failed, import_unsaved, marshal_failed, not_running, template_exists, template_not_found,
  unparsable, unreadable, unwritable, validation_failed,
}

pub data Lock : Type 0 where
  free reading writing : Lock

pub record ConfigManager : Type 0 where
  pub config : SystemConfig
  pub config_path : String
  pub files : GoMap (List ℕ)
  pub watchers : List ℕ
  pub notified : List (ℕ × SystemConfig)
  pub last_modified : ℕ
  pub watching : Bool

unfoldable pub new_config_manager : String → GoMap (List ℕ) → ConfigManager
new_config_manager path files = record {
  config = empty_config;
  config_path = path;
  files = files;
  watchers = [];
  notified = [];
  last_modified = 0;
  watching = false;
}

abbrev pub Result : Type 0
Result = Outcome (ConfigManager × Option ConfigError)

-- RLock of GetConfig.
unfoldable pub get_config : Lock → ConfigManager → Outcome SystemConfig
get_config writing cm = deadlocks
get_config reading cm = returns cm.config
get_config free cm = returns cm.config

unfoldable pub notify_watchers : Lock → ConfigManager → Outcome ConfigManager
notify_watchers lock cm =
    and_then (get_config lock cm)
      λ c. returns (record cm { notified = map (λ w. (w, c)) cm.watchers ++ cm.notified })

unfoldable pub watch_changes : ℕ → ConfigManager → ConfigManager
watch_changes w cm = record cm { watchers = cm.watchers ++ w ∷ [] }

unfoldable pub start_watching : ConfigManager → ConfigManager × Option ConfigError
start_watching cm =
    if cm.watching then (cm, some already_running) else (record cm { watching = true }, none)

unfoldable pub stop_watching : ConfigManager → ConfigManager × Option ConfigError
stop_watching cm =
    if not cm.watching then (cm, some not_running) else (record cm { watching = false }, none)

unfoldable pub get_device_config : String → ConfigManager → ConfigError ⊎ DeviceConfig
get_device_config id cm = elim (GoMap.get cm.config.devices id) [
  | none ↦ inl (device_not_found id)
  | some d ↦ inr d
]

unfoldable pub get_axis_config : String → ConfigManager → ConfigError ⊎ AxisConfig
get_axis_config id cm = elim (GoMap.get cm.config.axes id) [
  | none ↦ inl (axis_not_found id)
  | some a ↦ inr a
]

-- A read of a nil map finds nothing.
abbrev pub template_of : Option (GoMap TaskTemplate) → String → Option TaskTemplate
template_of none name = none
template_of (some m) name = GoMap.get m name

unfoldable pub get_task_template : String → ConfigManager → ConfigError ⊎ TaskTemplate
get_task_template name cm = elim (template_of cm.config.task_templates name) [
  | none ↦ inl (template_not_found name)
  | some t ↦ inr t
]

-- A write to a nil map panics; `delete` does nothing there.
abbrev pub put_template :
    String → TaskTemplate → Option (GoMap TaskTemplate) → SystemConfig → Outcome SystemConfig
put_template name t none c = panics
put_template name t (some m) c = returns (record c { task_templates = some (GoMap.put m name t) })

abbrev pub delete_template : String → Option (GoMap TaskTemplate) → Option (GoMap TaskTemplate)
delete_template name none = none
delete_template name (some m) = some (GoMap.remove m name)

abbrev pub import_result : ConfigManager × Option ConfigError → Result
import_result (cm, some e) = returns (cm, some (import_unsaved e))
import_result (cm, none) = returns (cm, none)

abbrev pub at_path : String → ConfigManager → ConfigManager
at_path path cm = if str_eq path "" then cm else record cm { config_path = path }

abbrev pub exported :
    String → Option String → ConfigManager → String ⊎ List ℕ → ConfigManager × Option ConfigError
exported path denied cm (inl e) = (cm, some (marshal_failed e))
exported path (some e) cm (inr bytes) = (cm, some (unwritable e))
exported path none cm (inr bytes) = (record cm { files = GoMap.put cm.files path bytes }, none)

module _ (env : Environment) where
  open env use {marshal, unmarshal}

  abbrev pub loaded :
      ℕ → ConfigManager → SystemConfig × Option ConfigError → ConfigManager × Option ConfigError
  loaded now cm (c, some e) = (cm, some (validation_failed e))
  loaded now cm (c, none) = (record cm { config = c; last_modified = now }, none)

  abbrev pub decoded :
      ℕ → ConfigManager → String ⊎ SystemConfig → ConfigManager × Option ConfigError
  decoded now cm (inl e) = (cm, some (unparsable e))
  decoded now cm (inr c) = loaded now cm (validate_config env c)

  abbrev pub parsed : ℕ → ConfigManager → Option (List ℕ) → ConfigManager × Option ConfigError
  parsed now cm none = (cm, some unreadable)
  parsed now cm (some bytes) = decoded now cm (unmarshal bytes)

  unfoldable pub load_config : String → ℕ → ConfigManager → ConfigManager × Option ConfigError
  load_config path now cm =
      let at = at_path path cm in parsed now at (GoMap.get at.files at.config_path)

  unfoldable pub reload : ℕ → ConfigManager → ConfigManager × Option ConfigError
  reload now cm = load_config cm.config_path now cm

  abbrev pub reloaded : ConfigManager × Option ConfigError → Outcome ConfigManager
  reloaded (cm, some e) = returns cm
  reloaded (cm, none) = notify_watchers free cm

  -- `modified` is the time that os.Stat gives, or none where it fails.
  unfoldable pub check_file_changes : Option ℕ → ℕ → ConfigManager → Outcome ConfigManager
  check_file_changes none now cm = returns cm
  check_file_changes (some modified) now cm =
      if ltb cm.last_modified modified then reloaded (reload now cm) else returns cm

  abbrev pub stored : SystemConfig → ℕ → Option String → ConfigManager → String ⊎ List ℕ → Result
  stored c now denied cm (inl e) = returns (cm, some (marshal_failed e))
  stored c now (some e) cm (inr bytes) = returns (cm, some (unwritable e))
  stored c now none cm (inr bytes) =
      and_then
        (notify_watchers writing (record cm {
          config = c;
          files = GoMap.put cm.files cm.config_path bytes;
          last_modified = now;
        }))
        (λ after. returns (after, none))

  abbrev pub validated :
      ℕ → Option String → ConfigManager → SystemConfig × Option ConfigError → Result
  validated now denied cm (c, some e) = returns (cm, some (validation_failed e))
  validated now denied cm (c, none) = stored c now denied cm (marshal c)

  unfoldable pub set_config : Lock → SystemConfig → ℕ → Option String → ConfigManager → Result
  set_config reading c now denied cm = deadlocks
  set_config writing c now denied cm = deadlocks
  set_config free c now denied cm = validated now denied cm (validate_config env c)

  -- The map is that of the stored configuration: the entry is replaced before SetConfig is called.
  unfoldable pub update_device_config :
      String → DeviceConfig → ℕ → Option String → ConfigManager → Result
  update_device_config id d now denied cm = elim (GoMap.get cm.config.devices id) [
    | none ↦ returns (cm, some (device_not_found id))
    | some old ↦
        let c : SystemConfig = record cm.config { devices = GoMap.put cm.config.devices id d } in
        set_config writing c now denied (record cm { config = c })
  ]

  unfoldable pub update_axis_config :
      String → AxisConfig → ℕ → Option String → ConfigManager → Result
  update_axis_config id a now denied cm = elim (GoMap.get cm.config.axes id) [
    | none ↦ returns (cm, some (axis_not_found id))
    | some old ↦
        let c : SystemConfig = record cm.config { axes = GoMap.put cm.config.axes id a } in
        set_config writing c now denied (record cm { config = c })
  ]

  abbrev pub with_template : String → TaskTemplate → ℕ → Option String → ConfigManager → Result
  with_template name t now denied cm =
      and_then (put_template name t cm.config.task_templates cm.config)
        (λ c. set_config writing c now denied (record cm { config = c }))

  unfoldable pub add_task_template :
      String → TaskTemplate → ℕ → Option String → ConfigManager → Result
  add_task_template name t now denied cm = elim (template_of cm.config.task_templates name) [
    | some old ↦ returns (cm, some (template_exists name))
    | none ↦ with_template name t now denied cm
  ]

  unfoldable pub update_task_template :
      String → TaskTemplate → ℕ → Option String → ConfigManager → Result
  update_task_template name t now denied cm = elim (template_of cm.config.task_templates name) [
    | none ↦ returns (cm, some (template_not_found name))
    | some old ↦ with_template name t now denied cm
  ]

  unfoldable pub remove_task_template : String → ℕ → Option String → ConfigManager → Result
  remove_task_template name now denied cm = elim (template_of cm.config.task_templates name) [
    | none ↦ returns (cm, some (template_not_found name))
    | some old ↦
        let c : SystemConfig = record cm.config {
          task_templates = delete_template name cm.config.task_templates;
        } in
        set_config writing c now denied (record cm { config = c })
  ]

  unfoldable pub create_default_config : ℕ → Option String → ConfigManager → Result
  create_default_config now denied cm = set_config free default_config now denied cm

  unfoldable pub export_config :
      String → Option String → ConfigManager → ConfigManager × Option ConfigError
  export_config path denied cm = exported path denied cm (marshal cm.config)

  abbrev pub imported : ℕ → Option String → ConfigManager × Option ConfigError → Result
  imported now denied (cm, some e) = returns (cm, some (import_failed e))
  imported now denied (cm, none) =
      and_then (and_then (get_config free cm) (λ c. set_config free c now denied cm)) import_result

  unfoldable pub import_config : String → ℕ → Option String → ConfigManager → Result
  import_config path now denied cm = imported now denied (load_config path now cm)

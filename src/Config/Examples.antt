-- ===== src/Config/Examples.antt =====
-- The theorems about internal/config/manager.go at concrete configurations, and tests.
use go_control.Prelude.{ℕ, ◌≡◌, ◌≢◌, ◌↔◌, refl, true, false, none, some, List, [], ◌∷◌, inr}
use go_control.GoMap
use go_control.GoMap.{GoMap}
use go_control.Outcome.{deadlocks, Holds}
use go_control.Config.Defaults.{default_config, default_device, default_axis}
use go_control.Config.{ConfigManager, new_config_manager, load_config}
use go_control.Config.Checking.{check_config, validate_config}
use go_control.Config.Checking.{check_each, check_device, check_axis, defaulted, Environment}
use go_control.Config.Validation.{IsValid, IsNormal, validate_config-IsValid}
use go_control.Config.Saving.{Change, apply, apply_fails, apply_deadlocks}
use go_control.Config.Loading.{Event, run, IsLoaded, run-IsLoaded}

-- A serializer that writes a mark, and reads the default configuration back.
abbrev env : Environment
env = record {
  le = λ a b. false;
  device_order = GoMap.keys;
  axis_order = GoMap.keys;
  marshal = λ c. inr (1 ∷ []);
  unmarshal = λ b. inr default_config;
}

abbrev files : GoMap (List ℕ)
files = GoMap.put GoMap.empty "system.yaml" (1 ∷ [])

abbrev manager : ConfigManager
manager = new_config_manager "system.yaml" files

-- The manager once the default configuration is loaded.
abbrev running : ConfigManager
running = (load_config env "" 7 manager).0

loads_default : running.config ≡ default_config
unfolding load_config validate_config check_config check_each check_device check_axis defaulted
    default_config default_device default_axis new_config_manager GoMap.get GoMap.put GoMap.size
    GoMap.keys GoMap.empty
loads_default = refl

validate_config-IsValid_example :
    (((validate_config env default_config).1 ≡ none) ↔ IsValid env.le default_config)
    × IsNormal (validate_config env default_config).0
    × ((validate_config env default_config).0.devices ≡ default_config.devices)
    × ((validate_config env default_config).0.axes ≡ default_config.axes)
validate_config-IsValid_example =
    validate_config-IsValid env GoMap.keys_visit GoMap.keys_visit default_config

apply_fails_example :
    Holds (λ r. r.1 ≢ none) (apply env (Change.sets default_config) 9 none running)
apply_fails_example = apply_fails env (Change.sets default_config) 9 none running

has_device : GoMap.has running.config.devices "device-1" ≡ true
unfolding load_config validate_config check_config check_each check_device check_axis defaulted
    default_config default_device default_axis new_config_manager GoMap.get GoMap.put GoMap.size
    GoMap.keys GoMap.empty
has_device = refl

apply_deadlocks_example :
    apply env (Change.updates_device "device-1" default_device) 9 none running ≡ deadlocks
apply_deadlocks_example =
    apply_deadlocks env (Change.updates_device "device-1" default_device) 9 none running has_device

run-IsLoaded_example : Holds (IsLoaded env) (
    run env
      (Event.loads "" 7
        ∷ Event.changes (Change.removes_template "no such") 8 none
        ∷ Event.checks (some 9) 10
        ∷ [])
      manager)
run-IsLoaded_example = run-IsLoaded env GoMap.keys_visit GoMap.keys_visit "system.yaml" files _

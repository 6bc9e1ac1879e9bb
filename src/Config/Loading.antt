-- ===== src/Config/Loading.antt =====
-- internal/config/manager.go: the configuration that the manager holds, whatever happens to it and to
-- the files.
use go_control.Prelude.{
  ℕ, String, ◌≡◌, refl, Option, none, some, List, [], ◌∷◌, ◌⊎◌, inl, inr, ltb, if_holds, not,
  str_eq,
}
use go_control.GoMap
use go_control.GoMap.{GoMap}
use go_control.Outcome.{Outcome, returns, and_then, Holds, and_then-Holds}
use go_control.Config.Records.{SystemConfig}
use go_control.Config.Defaults.{empty_config}
use go_control.Config.Validation.{Visits, IsValid, IsNormal, validate_config-IsValid}
use go_control.Config.Saving.{
  Change, sets, updates_device, updates_axis, adds_template, updates_template, removes_template,
  creates_default, imports, apply, update_device-Holds, update_axis-Holds, add_template-Holds,
  update_template-Holds, remove_template-Holds,
}
use go_control.Config.{
  ConfigManager, free, at_path, load_config, reload, check_file_changes, reloaded, watch_changes,
  start_watching, stop_watching, export_config, exported, loaded, parsed, decoded, get_config,
  notify_watchers, set_config, stored, validated, new_config_manager, import_config, imported,
  import_result, create_default_config,
}
use go_control.Config.Checking.{validate_config}
use go_control.Config.Checking.{ConfigError, Environment}

-- What may happen: a call, a look at the file by the watching goroutine, or a write to a file from
-- outside.
pub data Event : Type 0 where
  loads : String → ℕ → Event
  checks : Option ℕ → ℕ → Event
  watches : ℕ → Event
  starts stops : Event
  exports : String → Option String → Event
  changes : Change → ℕ → Option String → Event
  writes : String → List ℕ → Event

module _ (env : Environment) where
  unfoldable pub step : Event → ConfigManager → Outcome ConfigManager
  step (loads path now) cm = returns (load_config env path now cm).0
  step (checks modified now) cm = check_file_changes env modified now cm
  step (watches w) cm = returns (watch_changes w cm)
  step starts cm = returns (start_watching cm).0
  step stops cm = returns (stop_watching cm).0
  step (exports path denied) cm = returns (export_config env path denied cm).0
  step (changes change now denied) cm = and_then (apply env change now denied cm) (λ r. returns r.0)
  step (writes path bytes) cm = returns (record cm { files = GoMap.put cm.files path bytes })

  unfoldable pub run : List Event → ConfigManager → Outcome ConfigManager
  run [] cm = returns cm
  run (e ∷ rest) cm = and_then (step e cm) (run rest)

  abbrev IsGood : SystemConfig → Type 0
  IsGood c = IsValid env.le c × IsNormal c

  -- Nothing has been loaded yet, or the configuration is valid and complete.
  abbrev pub IsLoaded : ConfigManager → Type 0
  IsLoaded cm = (cm.config ≡ empty_config) ⊎ (IsValid env.le cm.config × IsNormal cm.config)

  abbrev Keeps : ConfigManager × Option ConfigError → Type 0
  Keeps r = IsLoaded r.0

  loaded-IsLoaded :
      (now : ℕ) (cm : ConfigManager) (v : SystemConfig × Option ConfigError)
      → (v.1 ≡ none → IsGood v.0)
      → IsLoaded cm
      → Keeps (loaded env now cm v)
  loaded-IsLoaded now cm (c, some e) good h = h
  loaded-IsLoaded now cm (c, none) good h = inr (good refl)

  exported-IsLoaded :
      (path : String) (denied : Option String) (cm : ConfigManager) (bytes : String ⊎ List ℕ)
      → IsLoaded cm
      → Keeps (exported path denied cm bytes)
  exported-IsLoaded path denied cm (inl e) h = h
  exported-IsLoaded path (some e) cm (inr bytes) h = h
  exported-IsLoaded path none cm (inr bytes) h = h

  reloaded-IsLoaded :
      (r : ConfigManager × Option ConfigError) → Keeps r → Holds IsLoaded (reloaded env r)
  unfolding notify_watchers get_config
  reloaded-IsLoaded (cm, some e) h = h
  reloaded-IsLoaded (cm, none) h = h

  stored-IsLoaded :
      (c : SystemConfig) (now : ℕ) (denied : Option String) (cm : ConfigManager)
      (bytes : String ⊎ List ℕ)
      → IsLoaded cm
      → Holds Keeps (stored env c now denied cm bytes)
  unfolding notify_watchers get_config
  stored-IsLoaded c now denied cm (inl e) h = h
  stored-IsLoaded c now (some e) cm (inr bytes) h = h
  stored-IsLoaded c now none cm (inr bytes) h = tt

  validated-IsLoaded :
      (now : ℕ) (denied : Option String) (cm : ConfigManager)
      (v : SystemConfig × Option ConfigError)
      → IsLoaded cm
      → Holds Keeps (validated env now denied cm v)
  validated-IsLoaded now denied cm (c, some e) h = h
  validated-IsLoaded now denied cm (c, none) h = stored-IsLoaded c now denied cm (env.marshal c) h

  set_config-IsLoaded :
      (c : SystemConfig) (now : ℕ) (denied : Option String) (cm : ConfigManager)
      → IsLoaded cm
      → Holds Keeps (set_config env free c now denied cm)
  unfolding set_config
  set_config-IsLoaded c now denied cm h = validated-IsLoaded now denied cm (validate_config env c) h

  import_result-IsLoaded :
      (r : ConfigManager × Option ConfigError) → Keeps r → Holds Keeps (import_result r)
  import_result-IsLoaded (cm, some e) h = h
  import_result-IsLoaded (cm, none) h = h

  imported-IsLoaded :
      (now : ℕ) (denied : Option String) (r : ConfigManager × Option ConfigError)
      → Keeps r
      → Holds Keeps (imported env now denied r)
  unfolding get_config
  imported-IsLoaded now denied (cm, some e) h = h
  imported-IsLoaded now denied (cm, none) h =
      and_then-Holds Keeps Keeps (set_config env free cm.config now denied cm) import_result
        (set_config-IsLoaded cm.config now denied cm h) import_result-IsLoaded

  apply-IsLoaded :
      (change : Change) (now : ℕ) (denied : Option String) (cm : ConfigManager)
      → ((path : String) → Keeps (load_config env path now cm))
      → IsLoaded cm
      → Holds Keeps (apply env change now denied cm)
  apply-IsLoaded (sets c) now denied cm loads_well h =
      unfold apply in set_config-IsLoaded c now denied cm h
  apply-IsLoaded (updates_device id d) now denied cm loads_well h =
      update_device-Holds env Keeps now denied cm (λ e. h) id d
  apply-IsLoaded (updates_axis id a) now denied cm loads_well h =
      update_axis-Holds env Keeps now denied cm (λ e. h) id a
  apply-IsLoaded (adds_template name t) now denied cm loads_well h =
      add_template-Holds env Keeps now denied cm (λ e. h) name t
  apply-IsLoaded (updates_template name t) now denied cm loads_well h =
      update_template-Holds env Keeps now denied cm (λ e. h) name t
  apply-IsLoaded (removes_template name) now denied cm loads_well h =
      remove_template-Holds env Keeps now denied cm (λ e. h) name
  apply-IsLoaded creates_default now denied cm loads_well h =
      unfold apply create_default_config in set_config-IsLoaded _ now denied cm h
  apply-IsLoaded (imports path) now denied cm loads_well h =
      unfold apply import_config in
      imported-IsLoaded now denied (load_config env path now cm) (loads_well path)

  module _ (devices_visited : Visits env.device_order) (axes_visited : Visits env.axis_order) where
    validated-IsGood :
        (c : SystemConfig) → (validate_config env c).1 ≡ none → IsGood (validate_config env c).0
    validated-IsGood c h =
        let v = validate_config-IsValid env devices_visited axes_visited c in
        (rw (v.2, v.3) (v.0.0 h), v.1)

    decoded-IsLoaded :
        (now : ℕ) (cm : ConfigManager) (u : String ⊎ SystemConfig)
        → IsLoaded cm
        → Keeps (decoded env now cm u)
    decoded-IsLoaded now cm (inl e) h = h
    decoded-IsLoaded now cm (inr c) h =
        loaded-IsLoaded now cm (validate_config env c) (validated-IsGood c) h

    parsed-IsLoaded :
        (now : ℕ) (cm : ConfigManager) (file : Option (List ℕ))
        → IsLoaded cm
        → Keeps (parsed env now cm file)
    parsed-IsLoaded now cm none h = h
    parsed-IsLoaded now cm (some bytes) h = decoded-IsLoaded now cm (env.unmarshal bytes) h

    load_config-IsLoaded :
        (path : String) (now : ℕ) (cm : ConfigManager)
        → IsLoaded cm
        → Keeps (load_config env path now cm)
    unfolding load_config
    load_config-IsLoaded path now cm h =
        let at = at_path path cm in
        parsed-IsLoaded now at (GoMap.get at.files at.config_path)
          (if_holds IsLoaded (str_eq path "") h h)

    step-IsLoaded : (e : Event) (cm : ConfigManager) → IsLoaded cm → Holds IsLoaded (step e cm)
    unfolding step
    step-IsLoaded (loads path now) cm h = load_config-IsLoaded path now cm h
    step-IsLoaded (checks none now) cm h = unfold check_file_changes in h
    step-IsLoaded (checks (some modified) now) cm h =
        unfold check_file_changes reload in
        if_holds (Holds IsLoaded) (ltb cm.last_modified modified)
          (reloaded-IsLoaded _ (load_config-IsLoaded cm.config_path now cm h)) h
    step-IsLoaded (watches w) cm h = unfold watch_changes in h
    step-IsLoaded starts cm h = unfold start_watching in if_holds Keeps cm.watching h h
    step-IsLoaded stops cm h = unfold stop_watching in if_holds Keeps (not cm.watching) h h
    step-IsLoaded (exports path denied) cm h =
        unfold export_config in exported-IsLoaded path denied cm (env.marshal cm.config) h
    step-IsLoaded (changes change now denied) cm h =
        and_then-Holds Keeps IsLoaded (apply env change now denied cm) (λ r. returns r.0)
          (apply-IsLoaded change now denied cm (λ path. load_config-IsLoaded path now cm h) h)
          (λ r k. k)
    step-IsLoaded (writes path bytes) cm h = h

    run_from :
        (events : List Event) (cm : ConfigManager) → IsLoaded cm → Holds IsLoaded (run events cm)
    unfolding run
    run_from [] cm h = h
    run_from (e ∷ rest) cm h =
        and_then-Holds IsLoaded IsLoaded (step e cm) (run rest) (step-IsLoaded e cm h)
          (run_from rest)

    -- Whatever is called, whatever the watching goroutine sees and whatever is written to the files,
    -- what a new manager holds afterwards, if every call returns, is the zero value or a valid
    -- configuration with positive intervals and sizes and no nil map, provided that the orders of
    -- `range` visit every entry.
    pub run-IsLoaded :
        (path : String) (files : GoMap (List ℕ)) (events : List Event)
        → Holds IsLoaded (run events (new_config_manager path files))
    unfolding new_config_manager
    run-IsLoaded path files events = run_from events _ (inl refl)

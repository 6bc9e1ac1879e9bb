-- ===== src/Trigger/Examples.antt =====
-- internal/core/trigger.go: a trigger with a due source, and the theorems at it.
use go_control.Prelude.{ℕ, String, ◌≡◌, ◌↔◌, refl, Bool, true, ltb, none, some, [], ◌∷◌}
use go_control.GoMap
use go_control.Events.{Event, event_type_timer_tick, other_event}
use go_control.Outcome.{Holds}
use go_control.Types.{Float64, medium}
use go_control.Samples.{a_task, one_axis}
use go_control.Trigger.{
  TaskTrigger, TriggerSource, Visit, new_task_trigger, validate_trigger, check_triggers,
}
use go_control.Trigger.Validation.{IsValid, validate_trigger-IsValid}
use go_control.Trigger.Checks.{AllValid, check_triggers-AllValid}

-- Non-negative floats compare as their bit patterns do.
abbrev above : Float64 → Float64 → Bool
above a b = ltb b.bits a.bits

abbrev name_of : ℕ → String
name_of n = "task-1"

abbrev button : TriggerSource
button = record { name = "button"; enabled = true; last_trigger = none }

abbrev armed : TaskTrigger
armed = record (new_task_trigger (λ _. a_task "" medium) one_axis) {
  triggers = GoMap.put GoMap.empty "button" button;
  running = true;
}

abbrev press : Visit
press = record {
  key = "button";
  returned = some 3;
  tested_at = 5;
  nanos = 6;
  created_at = 7;
  sent_at = 8;
}

abbrev press_again : Visit
press_again = record press { tested_at = 20; sent_at = 21 }

abbrev tick : Event
tick = record { kind = event_type_timer_tick; source = "clock"; payload = other_event }

validate_trigger-IsValid_example :
    ((validate_trigger above one_axis (some 3) (λ _. a_task "" medium)).1 ≡ none)
    ↔ IsValid above one_axis (a_task "" medium)
validate_trigger-IsValid_example = validate_trigger-IsValid above one_axis 3 (λ _. a_task "" medium)

check_triggers-AllValid_example :
    Holds (AllValid above one_axis) (check_triggers above name_of (press ∷ press_again ∷ []) armed)
unfolding new_task_trigger
check_triggers-AllValid_example =
    check_triggers-AllValid above one_axis name_of (press ∷ press_again ∷ []) armed (tt, refl)
